-- ===== src/Table/Counting.antt =====
-- What a write does to one entry of the array, and how many entries are in use.
use native.Mathlib.Decide.{ℕ_discrete}
use xan.Base.{
  ℕ, zero, suc, ◌+◌, ◌*◌, ◌<◌, ◌≡◌, ◌⊎◌, inl, inr, arith, ltb, ◌≢◌, true, false, ◌&&◌, List, length,
  length-set, get_or-set, set, Bool-cases, ◌∙◌, if◌then◌else◌, ◌==◌,
}
use xan.Value.{Value, nil, is_nil}
use xan.Table.{key, value, write}
use xan.Table.Slots.{is_empty}

-- How many of the first `m` entries are not empty: live ones and tombstones.
unfoldable pub used_below : {D : Type 0} → List (Value D) → ℕ → ℕ
used_below es zero = 0
used_below es (suc m) = (if is_empty es (2 * m) then 0 else 1) + used_below es m

-- With fewer entries in use than there are, one is empty.
pub empty_left :
    {D : Type 0} (es : List (Value D)) (m : ℕ)
    → used_below es m < m
    → (e : ℕ) × (e < m) × (is_nil (key es (2 * e)) ≡ true) × (is_nil (value es (2 * e)) ≡ true)
unfolding used_below
empty_left es zero h = absurd (omega arith)
empty_left es (suc m) h = elim (Bool-cases (is_empty es (2 * m))) [
  | inl free ↦ (m, omega arith, ground arith, ground arith)
  | inr taken ↦ let (e, lt, a, b) = empty_left es m (ground arith) in (e, omega arith, a, b)
]

module _ {D : Type 0} (es : List (Value D)) (s : ℕ) (x v : Value D)
    (fits : 2 * s + 1 < length es) where
  pub key-write :
      (t : ℕ) → key (write es (2 * s) x v) (2 * t) ≡ (if t == s then x else key es (2 * t))
  key-write t = ground (
    arith,
    get_or-set (set es (2 * s) x) (2 * s + 1) (2 * t) v nil,
    get_or-set es (2 * s) (2 * t) x nil,
    length-set es (2 * s) x,
  )

  pub value-write :
      (t : ℕ) → value (write es (2 * s) x v) (2 * t) ≡ (if t == s then v else value es (2 * t))
  value-write t = ground (
    arith,
    get_or-set (set es (2 * s) x) (2 * s + 1) (2 * t + 1) v nil,
    get_or-set es (2 * s) (2 * t + 1) x nil,
    length-set es (2 * s) x,
  )

  -- Each entry after the write.
  pub write-cases :
      (t : ℕ)
      → ((t ≡ s)
          × (key (write es (2 * s) x v) (2 * t) ≡ x)
          × (value (write es (2 * s) x v) (2 * t) ≡ v))
        ⊎ ((t ≢ s)
            × (key (write es (2 * s) x v) (2 * t) ≡ key es (2 * t))
            × (value (write es (2 * s) x v) (2 * t) ≡ value es (2 * t)))
  write-cases t = elim (ℕ_discrete t s) [
    | yes e ↦ inl (e, ground (arith, key-write t), ground (arith, value-write t))
    | no ne ↦ inr (ne, ground (arith, key-write t), ground (arith, value-write t))
  ]

  pub length-write : length (write es (2 * s) x v) ≡ length es
  length-write = length-set (set es (2 * s) x) (2 * s + 1) v ∙ length-set es (2 * s) x

  pub is_empty-write :
      (t : ℕ)
      → is_empty (write es (2 * s) x v) (2 * t)
        ≡ (if t == s then is_nil x && is_nil v else is_empty es (2 * t))
  is_empty-write t = ground (arith, key-write t, value-write t)

  -- A write that leaves the entry in use adds one if the entry was empty.
  pub used_below-write :
      (m : ℕ)
      → (is_nil x && is_nil v) ≡ false
      → used_below (write es (2 * s) x v) m
        ≡ used_below es m + (if ltb s m && is_empty es (2 * s) then 1 else 0)
  unfolding used_below
  used_below-write zero taken = ground arith
  used_below-write (suc m) taken =
      ground (arith, used_below-write m taken, is_empty-write m, is_empty-write s)
