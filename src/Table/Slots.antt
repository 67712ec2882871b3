-- ===== src/Table/Slots.antt =====
-- Where the entries of a table stand, what they mean, and that `findEntry` finds them.
use native.Mathlib.Nat.{pow-suc}
use xan.Base.{
  ℕ, suc, ◌+◌, ◌-◌, ◌*◌, ◌^◌, ◌<◌, ◌≡◌, refl, ◌⊎◌, inl, inr, arith, Bool, true, false, ◌&&◌, List,
  Option, none, some, length, Bool-cases, ◌∙◌,
}
use xan.Value.{Val, Value, Number, Strings, is_nil, values_equal, hash, hash-values_equal}
use xan.Table.{key, value, probe, find_entry}
use xan.Table.Probe.{
  pos, pos-lt, pos_reaches, start_index, home, home-lt, IsEmpty, IsPassed, Ends, hit, miss,
  probe-Ends,
}

abbrev pub is_empty : {D : Type 0} → List (Value D) → ℕ → Bool
is_empty es i = is_nil (key es i) && is_nil (value es i)

lt_trichotomy : (a b : ℕ) → (a < b) ⊎ ((a ≡ b) ⊎ (b < a))
lt_trichotomy a b = omega arith

module _ (N : Number) (S : Strings) where
  pub home_congr : (k : ℕ) (x y : Val N) → values_equal N x y ≡ true → home N S k x ≡ home N S k y
  unfolding home
  home_congr k x y e = rw (hash-values_equal N S x y e)

  -- The entry `s` can be reached from the slot where the search for `x` starts.
  pub record IsReached (k : ℕ) (es : List (Val N)) (x : Val N) (s : ℕ) : Type 0 where
    pub distance : ℕ
    pub near : distance < 2 ^ k
    pub arrives : pos (2 ^ k) (home N S k x) distance ≡ s
    pub used : (p : ℕ) → p < distance → is_empty es (2 * pos (2 ^ k) (home N S k x) p) ≡ false

  -- The array of a table with `2 ^ k` entries: each key can be reached, and no two keys are equal.
  pub record IsPlaced (k : ℕ) (es : List (Val N)) : Type 0 where
    pub width : length es ≡ 2 ^ suc k
    pub reached :
        (s : ℕ) → s < 2 ^ k → is_nil (key es (2 * s)) ≡ false → IsReached k es (key es (2 * s)) s
    pub distinct :
        (s t : ℕ)
        → s < 2 ^ k
        → t < 2 ^ k
        → is_nil (key es (2 * s)) ≡ false
        → is_nil (key es (2 * t)) ≡ false
        → values_equal N (key es (2 * s)) (key es (2 * t)) ≡ true
        → s ≡ t

  -- What the array says of the key `q`: nothing, or the value that stands behind an equal key.
  abbrev pub Says : ℕ → List (Val N) → Val N → Option (Val N) → Type 0
  Says k es q none =
      (s : ℕ)
      → s < 2 ^ k
      → is_nil (key es (2 * s)) ≡ false
      → values_equal N q (key es (2 * s)) ≡ false
  Says k es q (some v) =
      (s : ℕ) × (s < 2 ^ k)
      × (is_nil (key es (2 * s)) ≡ false)
      × (values_equal N q (key es (2 * s)) ≡ true)
      × (value es (2 * s) ≡ v)

  -- What `findEntry` returns: the entry of an equal key, or a free one where the key can go.
  pub data Finds (k : ℕ) (es : List (Val N)) (x : Val N) (i : ℕ) : Type 0 where
    present :
        (s : ℕ)
        → s < 2 ^ k
        → i ≡ 2 * s
        → is_nil (key es i) ≡ false
        → values_equal N x (key es i) ≡ true
        → Finds k es x i
    absent :
        (s : ℕ)
        → s < 2 ^ k
        → i ≡ 2 * s
        → is_nil (key es i) ≡ true
        → IsReached k es x s
        → Says k es x none
        → Finds k es x i

  IsPassed-used :
      (x : Val N) (es : List (Val N)) (i : ℕ) → IsPassed N x es i → is_empty es i ≡ false
  IsPassed-used x es i past = ground arith

  pub IsReached-congr :
      (k : ℕ) (es : List (Val N)) (x y : Val N) (s : ℕ)
      → values_equal N x y ≡ true
      → IsReached k es y s
      → IsReached k es x s
  IsReached-congr k es x y s same r = record {
    distance = r.distance;
    near = r.near;
    arrives = rw (home_congr k x y same) r.arrives;
    used = λ p lp. rw (home_congr k x y same) (r.used p lp);
  }

  module _ (k : ℕ) (es : List (Val N)) (x : Val N) (placed : IsPlaced k es) where
    -- No live entry holds `x` if the search meets an empty entry before it.
    none-Says :
        (e : ℕ)
        → e < 2 ^ k
        → IsEmpty N es (2 * pos (2 ^ k) (home N S k x) e)
        → ((p : ℕ) → p < e → IsPassed N x es (2 * pos (2 ^ k) (home N S k x) p))
        → Says k es x none
    none-Says e lt stop past s ls live = elim (Bool-cases (values_equal N x (key es (2 * s)))) [
      | inr other ↦ other
      | inl same ↦
          let r = IsReached-congr k es x (key es (2 * s)) s same (placed.reached s ls live) in
          elim (lt_trichotomy r.distance e) [
            | inl before ↦
                let here : IsPassed N x es (2 * s) = rw r.arrives at (past r.distance before) in
                absurd (ground arith)
            | inr rest ↦ elim rest [
              | inl equal ↦ let here : IsEmpty N es (2 * s) = rw (← r.arrives, equal) stop in cc
              | inr after ↦ let there = r.used e after in absurd (ground arith)
            ]
          ]
    ]

    Ends-Finds : (i : ℕ) → Ends N x (2 ^ k) (home N S k x) es i → Finds k es x i
    Ends-Finds i (hit d lt at live same past) =
        present (pos (2 ^ k) (home N S k x) d) (pos-lt (2 ^ k) _ d (home-lt N S k x) lt) at live
          same
    Ends-Finds i (miss d e le lt at dead stop past) =
        absent (pos (2 ^ k) (home N S k x) d) (pos-lt (2 ^ k) _ d (home-lt N S k x) (omega arith))
          at dead
          (record {
            distance = d;
            near = omega arith;
            arrives = refl;
            used = λ p lp. IsPassed-used x es _ (past p (omega arith));
          })
          (none-Says e lt stop past)

    starts :
        k < 32
        → find_entry N S es (2 ^ suc k - 1) x
          ≡ probe N S
              (2 ^ suc k - 1 + 1)
              es
              (2 ^ suc k - 1)
              x
              none
              (2 * pos (2 ^ k) (home N S k x) 0)
    unfolding find_entry home
    starts small =
        let zeroth : pos (2 ^ k) (home N S k x) 0 ≡ home N S k x =
          ground (arith, home-lt N S k x) in
        rw (zeroth, start_index k (hash N S x) small)

    -- With an empty entry left the search ends, at an entry as `Finds` says.
    pub find_entry-Finds :
        (e : ℕ)
        → k < 32
        → e < 2 ^ k
        → IsEmpty N es (2 * e)
        → (i : ℕ) × (find_entry N S es (2 ^ suc k - 1) x ≡ some i) × Finds k es x i
    find_entry-Finds e small le empty =
        let (d, ld, at) = pos_reaches (2 ^ k) (home N S k x) e (home-lt N S k x) le in
        let (i, run, ends) =
          probe-Ends N S x k (home N S k x) es (2 ^ suc k - 1 + 1) 0 d none small (home-lt N S k x)
            (omega (arith, pow-suc 2 k)) (omega arith) ld (rw at empty) tt
            (λ p lp. absurd (omega arith)) in
        (i, starts small ∙ run, Ends-Finds i ends)
