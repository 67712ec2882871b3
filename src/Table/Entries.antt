-- ===== src/Table/Entries.antt =====
-- `tableGet`, `tableSet` and `tableDelete` at the entry that their search finds.
use native.Mathlib.Decide.{ℕ_discrete}
use native.Mathlib.Nat.{pow-suc, one-le-pow}
use xan.Base.{
  clash, ℕ, zero, suc, ◌+◌, ◌*◌, ◌^◌, ◌≤◌, ◌<◌, ◌≡◌, refl, inl, inr, arith, Bool, ltb, true, false,
  ◌&&◌, List, Option, none, some, Bool-cases, ap, if◌then◌else◌,
}
use xan.Memory.{grow_capacity}
use xan.Value.{Val, Value, nil, bool, Number, Strings, is_nil, values_equal}
use xan.Table.{key, value, write, Table, is_loaded, grow, store}
use xan.Table.Slots.{is_empty, Says, Finds, present, absent}
use xan.Table.Counting.{used_below, used_below-write}
use xan.Table.Writes.{equal_via, update, store-IsPlaced, store-Means, bury-IsPlaced, bury-Means}
use xan.Table.Model.{exponent-lt, Models, adjust_capacity-Models}

abbrev pub is_none {ℓ} : {A : Type ℓ} → Option A → Bool
is_none none = true
is_none (some a) = false

-- The number of entries after growing, and that one more key fits.
grow_exponent :
    (k : ℕ)
    → k < 31
    → (k' : ℕ) × (k' < 32)
      × (grow_capacity (2 ^ suc k) ≡ 2 ^ suc k')
      × ((c : ℕ) → c < 2 ^ k → c + 1 < 2 ^ k')
unfolding grow_capacity
grow_exponent zero low = (2, omega arith, refl, λ c h. omega arith)
grow_exponent (suc zero) low = (2, omega arith, refl, λ c h. omega arith)
grow_exponent (suc (suc k)) low = (
  suc (suc (suc k)),
  omega arith,
  ground (
    arith,
    pow-suc 2 (suc (suc (suc k))),
    pow-suc 2 (suc (suc k)),
    pow-suc 2 (suc k),
    pow-suc 2 k,
    one-le-pow k 2,
  ),
  λ c h. omega (arith, pow-suc 2 (suc (suc k)), one-le-pow (suc (suc k)) 2),
)

pub used_below-live :
    {D : Type 0} (es : List (Value D)) (s m : ℕ)
    → s < m
    → is_nil (key es (2 * s)) ≡ false
    → 1 ≤ used_below es m
unfolding used_below
used_below-live es s zero lt live = absurd (omega arith)
used_below-live es s (suc m) lt live = elim (ℕ_discrete s m) [
  | yes e ↦ rw (← e, live) (omega arith)
  | no ne ↦ ground (arith, used_below-live es s m (omega arith) live)
]

module _ (N : Number) (S : Strings) (t : Table N.Double) (f : Val N → Option (Val N))
    (m : Models N S t f) where
  -- What the entry that a search finds says of the key.
  pub found-says :
      (i : ℕ) (x : Val N)
      → Finds N S m.exponent t.entries x i
      → (if is_nil (key t.entries i) then none else some (value t.entries i)) ≡ f x
  found-says i x found = go (f x) (m.means x) found
    where
      go :
          (r : Option (Val N))
          → Says N S m.exponent t.entries x r
          → Finds N S m.exponent t.entries x i
          → (if is_nil (key t.entries i) then none else some (value t.entries i)) ≡ r
      go none says (present s ls at here same) =
          absurd (clash same (rw at (says s ls (rw at at here))))
      go (some w) (s', ls', here', same', holds) (present s ls at here same) =
          let e : s' ≡ s = m.placed.distinct s' s ls' ls here' (rw at at here) (
            equal_via N S x (key t.entries (2 * s')) (key t.entries (2 * s)) same'
              (rw at at same)) in
          rw here (ap some (rw (at, ← e) holds))
      go none says (absent s ls at dead r apart) = rw dead
      go (some w) (s', ls', here', same', holds) (absent s ls at dead r apart) =
          absurd (clash same' (apart s' ls' here'))

  -- `tableSet` makes room first: the table that it searches can take one more entry.
  pub grow-Models :
      t.capacity_mask < 2 ^ 31
      → (t' : Table N.Double) × (grow N S t ≡ some t')
        × (m' : Models N S t' f) × (t'.count + 1 < 2 ^ m'.exponent)
  unfolding grow
  grow-Models small = elim (Bool-cases (is_loaded N S t)) [
    | inl loaded ↦
        let (k, low, size, more) = grow_exponent m.exponent (
          exponent-lt m.exponent 31
            (omega (arith, m.mask, pow-suc 2 m.exponent, one-le-pow m.exponent 2))) in
        let width : t.capacity_mask + 1 ≡ 2 ^ suc m.exponent =
          omega (arith, m.mask, one-le-pow (suc m.exponent) 2) in
        let (t', run, mask', fewer, m') =
          adjust_capacity-Models N S t f k low (omega (arith, more t.count m.room)) m in
        (
          t',
          rw (loaded, width, size) run,
          m',
          omega (
            arith,
            more t.count m.room,
            mask',
            m'.mask,
            fewer,
            pow-suc 2 k,
            pow-suc 2 m'.exponent,
            one-le-pow k 2,
            one-le-pow m'.exponent 2,
          ),
        )
    | inr roomy ↦ (t, ground arith, m, ground (arith, m.mask, pow-suc 2 m.exponent))
  ]

  Finds-slot :
      (i : ℕ) (x : Val N)
      → Finds N S m.exponent t.entries x i
      → (s : ℕ) × (s < 2 ^ m.exponent) × (i ≡ 2 * s)
  Finds-slot i x (present s ls at here same) = (s, ls, at)
  Finds-slot i x (absent s ls at dead r says) = (s, ls, at)

  stored :
      (s : ℕ) (x v : Val N)
      → s < 2 ^ m.exponent
      → is_nil x ≡ false
      → t.count + 1 < 2 ^ m.exponent
      → Finds N S m.exponent t.entries x (2 * s)
      → Models N S (store N S t (2 * s) x v).1 (update N S f x (some v))
  unfolding store
  stored s x v ls live room found = record {
    exponent = m.exponent;
    small = m.small;
    mask = m.mask;
    placed = store-IsPlaced N S m.exponent t.entries m.placed s ls x v live found;
    counted = ground (arith, m.counted, written);
    room = ground (arith, m.room);
    means = store-Means N S m.exponent t.entries m.placed s ls x v live found f m.means;
  }
    where
      written :
          used_below (write t.entries (2 * s) x v) (2 ^ m.exponent)
          ≡ used_below t.entries (2 ^ m.exponent)
            + (if ltb s (2 ^ m.exponent) && is_empty t.entries (2 * s) then 1 else 0)
      written =
          used_below-write t.entries s x v (omega (arith, m.placed.width, pow-suc 2 m.exponent))
            (2 ^ m.exponent) (rw live)

  pub store-Models :
      (i : ℕ) (x v : Val N)
      → is_nil x ≡ false
      → t.count + 1 < 2 ^ m.exponent
      → Finds N S m.exponent t.entries x i
      → ((store N S t i x v).0 ≡ is_none (f x))
        × Models N S (store N S t i x v).1 (update N S f x (some v))
  store-Models i x v live room found =
      let (s, ls, at) = Finds-slot i x found in
      (
        unfold store in ground (arith, found-says i x found),
        rw at (stored s x v ls live room (rw at at found)),
      )

  -- No table says anything of a key that no live entry holds.
  pub unsaid :
      (x : Val N)
      → ((s : ℕ)
          → s < 2 ^ m.exponent
          → is_nil (key t.entries (2 * s)) ≡ false
          → values_equal N x (key t.entries (2 * s)) ≡ false)
      → (f x ≡ none) × Models N S t (update N S f x none)
  unsaid x says = (
    go (f x) (m.means x),
    record {
      exponent = m.exponent;
      small = m.small;
      mask = m.mask;
      placed = m.placed;
      counted = m.counted;
      room = m.room;
      means = λ q. elim (Bool-cases (values_equal N q x)) [
        | inl e ↦ rw e (λ s ls live. elim (Bool-cases (values_equal N q (key t.entries (2 * s)))) [
          | inl same ↦
              absurd (clash (equal_via N S q x (key t.entries (2 * s)) e same) (says s ls live))
          | inr other ↦ other
        ])
        | inr other ↦ rw other (m.means q)
      ];
    },
  )
    where
      go : (r : Option (Val N)) → Says N S m.exponent t.entries x r → r ≡ none
      go none h = refl
      go (some w) (s, ls, live, same, holds) = absurd (clash same (says s ls live))

  pub buried :
      (s : ℕ) (x : Val N)
      → s < 2 ^ m.exponent
      → is_nil (key t.entries (2 * s)) ≡ false
      → values_equal N x (key t.entries (2 * s)) ≡ true
      → Models N S
          (record t { entries = write t.entries (2 * s) nil (bool true) })
          (update N S f x none)
  buried s x ls here same = record {
    exponent = m.exponent;
    small = m.small;
    mask = m.mask;
    placed = bury-IsPlaced N S m.exponent t.entries m.placed s ls x here same;
    counted = ground (
      arith,
      m.counted,
      here,
      used_below-write t.entries s nil (bool true)
          (omega (arith, m.placed.width, pow-suc 2 m.exponent)) (2 ^ m.exponent) refl,
    );
    room = m.room;
    means = bury-Means N S m.exponent t.entries m.placed s ls x here same f m.means;
  }
