-- ===== src/Table/Resize.antt =====
-- `adjustCapacity`: every live entry is put again into a fresh array, and the tombstones go.
use native.Mathlib.Decide.{ℕ_discrete}
use native.Mathlib.Nat.{pow-suc}
use xan.Base.{
  clash, ℕ, zero, suc, ◌+◌, ◌-◌, ◌*◌, ◌^◌, ◌≤◌, ◌<◌, ◌≡◌, refl, inl, inr, arith, true, false, List,
  Option, none, some, length, Bool-cases, ◌∙◌, if◌then◌else◌, replicate, length-replicate,
  get_or-replicate,
}
use xan.Value.{
  Val, Value, nil, Number, Strings, is_nil, values_equal, values_equal_symm, values_equal_trans,
}
use xan.Table.{key, value, write, find_entry, reinsert}
use xan.Table.Slots.{IsPlaced, Says, Finds, present, absent, find_entry-Finds}
use xan.Table.Counting.{used_below, empty_left, used_below-write, write-cases}
use xan.Table.Writes.{Means, store-IsPlaced, store-Means}

pub used_below_mono :
    {D : Type 0} (es : List (Value D)) (j m : ℕ) → j ≤ m → used_below es j ≤ used_below es m
unfolding used_below
used_below_mono es zero zero h = omega arith
used_below_mono es (suc j) zero h = absurd (omega arith)
used_below_mono es j (suc m) h = elim (ℕ_discrete j (suc m)) [
  | yes e ↦ rw e (omega arith)
  | no ne ↦ ground (arith, used_below_mono es j m)
]

-- No entry is a tombstone.
abbrev pub IsClean : {D : Type 0} → ℕ → List (Value D) → Type 0
IsClean k es =
    (s : ℕ) → s < 2 ^ k → is_nil (key es (2 * s)) ≡ true → is_nil (value es (2 * s)) ≡ true

module _ (N : Number) (S : Strings) where
  -- What the first `m` entries say of a key.
  unfoldable pub scan : List (Val N) → ℕ → Val N → Option (Val N)
  scan es zero q = none
  scan es (suc m) q =
      if is_nil (key es (2 * m))
      then scan es m q
      else if values_equal N q (key es (2 * m))
      then some (value es (2 * m))
      else scan es m q

  scan-none :
      (es : List (Val N)) (q : Val N) (m : ℕ)
      → ((s : ℕ)
          → s < m
          → is_nil (key es (2 * s)) ≡ false
          → values_equal N q (key es (2 * s)) ≡ false)
      → scan es m q ≡ none
  unfolding scan
  scan-none es q zero says = refl
  scan-none es q (suc m) says =
      ground (arith, says m (omega arith), scan-none es q m (λ s l. says s (omega arith)))

  scan-some :
      (es : List (Val N)) (q w : Val N) (t m : ℕ)
      → t < m
      → is_nil (key es (2 * t)) ≡ false
      → values_equal N q (key es (2 * t)) ≡ true
      → value es (2 * t) ≡ w
      → ((s : ℕ)
          → s < m
          → is_nil (key es (2 * s)) ≡ false
          → values_equal N q (key es (2 * s)) ≡ true
          → s ≡ t)
      → scan es m q ≡ some w
  unfolding scan
  scan-some es q w t zero lt live same holds one = absurd (omega arith)
  scan-some es q w t (suc m) lt live same holds one = elim (ℕ_discrete m t) [
    | yes e ↦ rw (e, live, same, holds)
    | no ne ↦
        let rest =
          scan-some es q w t m (omega arith) live same holds (λ s l. one s (omega arith)) in
        ground (arith, rest, one m (omega arith))
  ]

  -- A placed array says what a scan over all its entries finds.
  pub scan-Means :
      (k : ℕ) (es : List (Val N)) (f : Val N → Option (Val N))
      → IsPlaced N S k es
      → Means N S k es f
      → (q : Val N) → scan es (2 ^ k) q ≡ f q
  scan-Means k es f placed means q = go (f q) (means q)
    where
      go : (r : Option (Val N)) → Says N S k es q r → scan es (2 ^ k) q ≡ r
      go none says = scan-none es q (2 ^ k) says
      go (some w) (t, lt, live, same, holds) =
          scan-some es q w t (2 ^ k) lt live same holds (λ s l live' same'.
            placed.distinct s t l lt live' live (
              values_equal_trans N (key es (2 * s)) q (key es (2 * t))
                (values_equal_symm N (key es (2 * s)) q ∙ same') same))

  module _ (old : List (Val N)) (m k : ℕ) (small : k < 32)
      (distinct : (s t : ℕ)
        → s < m
        → t < m
        → is_nil (key old (2 * s)) ≡ false
        → is_nil (key old (2 * t)) ≡ false
        → values_equal N (key old (2 * s)) (key old (2 * t)) ≡ true
        → s ≡ t)
      (room : used_below old m < 2 ^ k) where
    -- After the first `j` old entries: the new array and its count.
    pub record Rebuilt (j : ℕ) (es : List (Val N)) (n : ℕ) : Type 0 where
      pub placed : IsPlaced N S k es
      pub clean : IsClean k es
      pub counted : used_below es (2 ^ k) ≡ n
      pub few : n ≤ used_below old j
      pub means : Means N S k es (scan old j)

    -- One live entry moves.
    store-Rebuilt :
        (j s : ℕ) (es : List (Val N)) (n : ℕ)
        → s < 2 ^ k
        → is_nil (key old (2 * j)) ≡ false
        → is_nil (key es (2 * s)) ≡ true
        → Finds N S k es (key old (2 * j)) (2 * s)
        → Rebuilt j es n
        → Rebuilt (suc j) (write es (2 * s) (key old (2 * j)) (value old (2 * j))) (n + 1)
    store-Rebuilt j s es n ls live dead found b = record {
      placed = store-IsPlaced N S k es b.placed s ls x v live found;
      clean = λ t lt gone. elim (write-cases es s x v fits t) [
        | inl (_, new, _) ↦ absurd (clash gone (rw new live))
        | inr (ne, same, same_value) ↦ rw same_value (b.clean t lt (rw same at gone))
      ];
      counted =
          ground
            (arith, used_below-write es s x v fits (2 ^ k) (rw live), b.clean s ls dead, b.counted);
      few = unfold used_below in ground (arith, b.few);
      means = λ q.
          unfold scan in
          rw live (store-Means N S k es b.placed s ls x v live found (scan old j) b.means q);
    }
      where
        x : Val N
        x = key old (2 * j)

        v : Val N
        v = value old (2 * j)

        fits : 2 * s + 1 < length es
        fits = omega (arith, b.placed.width, pow-suc 2 k)

    -- One live entry moves.
    move :
        (j : ℕ) (es : List (Val N)) (n : ℕ)
        → j < m
        → is_nil (key old (2 * j)) ≡ false
        → Rebuilt j es n
        → (i : ℕ) × (find_entry N S es (2 ^ suc k - 1) (key old (2 * j)) ≡ some i)
          × Rebuilt (suc j) (write es i (key old (2 * j)) (value old (2 * j))) (n + 1)
    move j es n lt live b =
        let x = key old (2 * j) in
        let space : used_below es (2 ^ k) < 2 ^ k =
          omega (arith, b.counted, b.few, used_below_mono old j m (omega arith)) in
        let (e, le, free, free_value) = empty_left es (2 ^ k) space in
        let (i, run, found) = find_entry-Finds N S k es x b.placed e small le (free, free_value) in
        (
          i,
          run,
          elim found [
            | present s ls at here same ↦
                let nothing : scan old j x ≡ none =
                  scan-none old x j (λ t l alive. fresh t l alive) in
                absurd (clash same (rw at (rw nothing at (b.means x) s ls (rw at at here))))
            | absent s ls at dead r says ↦
                let here : Finds N S k es x i = absent s ls at dead r says in
                rw at (store-Rebuilt j s es n ls live (rw at at dead) (rw at at here) b)
          ],
        )
      where
        fresh :
            (t : ℕ)
            → t < j
            → is_nil (key old (2 * t)) ≡ false
            → values_equal N (key old (2 * j)) (key old (2 * t)) ≡ false
        fresh t l alive = elim (Bool-cases (values_equal N (key old (2 * j)) (key old (2 * t)))) [
          | inl same ↦ let e = distinct j t lt (omega arith) live alive same in absurd (omega arith)
          | inr other ↦ other
        ]

    skip-Rebuilt :
        (j : ℕ) (es : List (Val N)) (n : ℕ)
        → is_nil (key old (2 * j)) ≡ true
        → Rebuilt j es n
        → Rebuilt (suc j) es n
    skip-Rebuilt j es n dead b = record {
      placed = b.placed;
      clean = b.clean;
      counted = b.counted;
      few = omega (arith, b.few, used_below_mono old j (suc j) (omega arith));
      means = λ q. unfold scan in rw dead (b.means q);
    }

    pub reinsert-Rebuilt :
        (rounds j : ℕ) (es : List (Val N)) (n : ℕ)
        → j + rounds ≡ m
        → Rebuilt j es n
        → (r : List (Val N) × ℕ) × (reinsert N S rounds (2 * j) old es (2 ^ suc k - 1) n ≡ some r)
          × Rebuilt m r.0 r.1
    unfolding reinsert
    reinsert-Rebuilt zero j es n e b = let f : m ≡ j = omega arith in ((es, n), refl, rw f b)
    reinsert-Rebuilt (suc rounds) j es n e b =
        let step : 2 * j + 2 ≡ 2 * suc j = omega arith in
        elim (Bool-cases (is_nil (key old (2 * j)))) [
          | inl dead ↦
              rw (dead, step)
                (reinsert-Rebuilt rounds (suc j) es n (omega arith) (skip-Rebuilt j es n dead b))
          | inr live ↦
              let (i, run, b') = move j es n (omega arith) live b in
              rw (live, run, step)
                (reinsert-Rebuilt rounds (suc j) (write es i (key old (2 * j)) (value old (2 * j)))
                  (n + 1) (omega arith) b')
        ]

  used_below-replicate : (len m : ℕ) → used_below {D = N.Double} (replicate len nil) m ≡ 0
  unfolding used_below
  used_below-replicate len zero = refl
  used_below-replicate len (suc m) =
      rw (get_or-replicate, get_or-replicate, used_below-replicate len m)

  -- A fresh array.
  pub fresh-Rebuilt :
      (old : List (Val N)) (m k : ℕ) (small : k < 32)
      (distinct : (s t : ℕ)
        → s < m
        → t < m
        → is_nil (key old (2 * s)) ≡ false
        → is_nil (key old (2 * t)) ≡ false
        → values_equal N (key old (2 * s)) (key old (2 * t)) ≡ true
        → s ≡ t)
      (room : used_below old m < 2 ^ k)
      → Rebuilt old m k small distinct room 0 (replicate (2 ^ suc k) nil) 0
  unfolding scan
  fresh-Rebuilt old m k small distinct room = record {
    placed = record {
      width = length-replicate (2 ^ suc k) nil;
      reached = λ s ls live. absurd (unused s live);
      distinct = λ s t ls lt live _ _. absurd (unused s live);
    };
    clean = λ s ls dead. rw get_or-replicate;
    counted = used_below-replicate (2 ^ suc k) (2 ^ k);
    few = omega arith;
    means = λ q s ls live. absurd (unused s live);
  }
    where
      unused : (s : ℕ) → is_nil (key {D = N.Double} (replicate (2 ^ suc k) nil) (2 * s)) ≡ false → ⊥
      unused s live = let e : true ≡ false = rw get_or-replicate at live in cc
