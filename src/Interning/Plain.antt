-- ===== src/Interning/Plain.antt =====
-- `tableSet` writes nothing in a table but what was there and its arguments, and `tableRemoveWhite`
-- nothing but tombstones: the cells that are equal to themselves stay so.
use xan.Base.{
  some-injective, ℕ, zero, suc, ◌+◌, ◌-◌, ◌/◌, ◌≡◌, refl, ap, inl, inr, Bool, true, List, [], ◌∷◌,
  Option, none, some, >>=-eq-some, Bool-cases, get_or, set, replicate, get_or-replicate, ◌==◌,
}
use xan.Memory.{grow_capacity}
use xan.Value.{Val, nil, bool, Number, Strings, is_nil, values_equal}
use xan.Table.{
  Table, key, value, write, find_entry, reinsert, adjust_capacity, is_loaded, grow, store,
  table_set, bury, table_delete, is_white, remove_white_from, table_remove_white,
}

module _ (N : Number) where
  -- No cell holds a value, such as a NaN, that differs from itself.
  abbrev pub IsPlain : List (Val N) → Type 0
  IsPlain es = (i : ℕ) → values_equal N (get_or es i nil) (get_or es i nil) ≡ true

  nil_self : values_equal N nil nil ≡ true
  unfolding values_equal
  nil_self = refl

  set-IsPlain :
      (es : List (Val N)) (i : ℕ) (v : Val N)
      → IsPlain es
      → values_equal N v v ≡ true
      → IsPlain (set es i v)
  set-IsPlain [] i v plain self j = plain j
  set-IsPlain (e ∷ es) zero v plain self zero = self
  set-IsPlain (e ∷ es) zero v plain self (suc j) = plain (suc j)
  set-IsPlain (e ∷ es) (suc i) v plain self zero = plain zero
  set-IsPlain (e ∷ es) (suc i) v plain self (suc j) = set-IsPlain es i v (λ l. plain (suc l)) self j

  replicate-IsPlain : (n : ℕ) → IsPlain (replicate n nil)
  replicate-IsPlain n i = rw (get_or-replicate {A = Val N} n i nil) nil_self

  module _ (S : Strings) where
    reinsert-IsPlain :
        (rounds i : ℕ) (old es : List (Val N)) (mask n : ℕ) (r : List (Val N) × ℕ)
        → IsPlain old
        → IsPlain es
        → reinsert N S rounds i old es mask n ≡ some r
        → IsPlain r.0
    unfolding reinsert
    reinsert-IsPlain zero i old es mask n r was plain run =
        let e : es ≡ r.0 = ap (λ (r : Option (List (Val N) × ℕ)). first r) run in rw (← e) plain
      where
        first : Option (List (Val N) × ℕ) → List (Val N)
        first none = es
        first (some r) = r.0
    reinsert-IsPlain (suc rounds) i old es mask n r was plain run =
        elim (Bool-cases (is_nil (key old i))) [
          | inl dead ↦
              reinsert-IsPlain rounds (i + 2) old es mask n r was plain (rw (reinsert, dead) at run)
          | inr live ↦
              let (dest, found, rest) =
                >>=-eq-some (find_entry N S es mask (key old i)) _ (rw (reinsert, live) at run) in
              reinsert-IsPlain rounds (i + 2) old (write es dest (key old i) (value old i)) mask
                (n + 1) r was
                (set-IsPlain (set es dest (key old i)) (dest + 1) (value old i)
                  (set-IsPlain es dest (key old i) plain (was i)) (was (i + 1)))
                rest
        ]

    adjust_capacity-IsPlain :
        (t t' : Table N.Double) (mask : ℕ)
        → IsPlain t.entries
        → adjust_capacity N S t mask ≡ some t'
        → IsPlain t'.entries
    unfolding adjust_capacity
    adjust_capacity-IsPlain t t' mask plain run =
        let (r, moved, e) =
          >>=-eq-some
            (reinsert N S ((t.capacity_mask + 1) / 2) 0 t.entries (replicate (mask + 1) nil) mask 0)
            _ run in
        rw (← some_entries _ _ e) (
          reinsert-IsPlain _ 0 t.entries (replicate (mask + 1) nil) mask 0 r plain
            (replicate-IsPlain (mask + 1)) moved)
      where
        some_entries : (a b : Table N.Double) → some a ≡ some b → a.entries ≡ b.entries
        some_entries a b h = cc

    grow-IsPlain :
        (t t' : Table N.Double) → IsPlain t.entries → grow N S t ≡ some t' → IsPlain t'.entries
    unfolding grow
    grow-IsPlain t t' plain run = elim (Bool-cases (is_loaded N S t)) [
      | inl loaded ↦
          adjust_capacity-IsPlain t t' (grow_capacity (t.capacity_mask + 1) - 1) plain
            (rw (grow, loaded) at run)
      | inr roomy ↦ let e : t ≡ t' = some-injective (rw (grow, roomy) at run) in rw (← e) plain
    ]

    pub table_set-IsPlain :
        (t : Table N.Double) (x v : Val N) (r : Bool × Table N.Double)
        → IsPlain t.entries
        → values_equal N x x ≡ true
        → values_equal N v v ≡ true
        → table_set N S t x v ≡ some r
        → IsPlain (r.1).entries
    unfolding table_set store
    table_set-IsPlain t x v r plain self self' run =
        let (t1, grown, run1) = >>=-eq-some (grow N S t) _ run in
        let (i, found, run2) = >>=-eq-some (find_entry N S t1.entries t1.capacity_mask x) _ run1 in
        rw (← some_entries _ _ run2) (
          set-IsPlain (set t1.entries i x) (i + 1) v
            (set-IsPlain t1.entries i x (grow-IsPlain t t1 plain grown) self) self')
      where
        some_entries :
            (a b : Bool × Table N.Double) → some a ≡ some b → (a.1).entries ≡ (b.1).entries
        some_entries a b h = cc

    bury-IsPlain :
        (t : Table N.Double) (i : ℕ) → IsPlain t.entries → IsPlain ((bury N S t i).1).entries
    unfolding bury values_equal
    bury-IsPlain t i plain = elim (Bool-cases (is_nil (key t.entries i))) [
      | inl dead ↦ rw dead plain
      | inr live ↦ rw live (
          set-IsPlain (set t.entries i nil) (i + 1) (bool true)
            (set-IsPlain t.entries i nil plain refl) refl)
    ]

    table_delete-IsPlain :
        (t : Table N.Double) (x : Val N) (r : Bool × Table N.Double)
        → IsPlain t.entries
        → table_delete N S t x ≡ some r
        → IsPlain (r.1).entries
    unfolding table_delete
    table_delete-IsPlain t x r plain run = elim (Bool-cases (t.count == 0)) [
      | inl vacant ↦ rw (← some_entries _ _ (rw (table_delete, vacant) at run)) plain
      | inr filled ↦
          let (i, found, rest) =
            >>=-eq-some (find_entry N S t.entries t.capacity_mask x) _
              (rw (table_delete, filled) at run) in
          rw (← some_entries _ _ rest) (bury-IsPlain t i plain)
    ]
      where
        some_entries :
            (a b : Bool × Table N.Double) → some a ≡ some b → (a.1).entries ≡ (b.1).entries
        some_entries a b h = cc

    remove_white_from-IsPlain :
        (rounds i : ℕ) (white : ℕ → Bool) (t t' : Table N.Double)
        → IsPlain t.entries
        → remove_white_from N S rounds i white t ≡ some t'
        → IsPlain t'.entries
    unfolding remove_white_from
    remove_white_from-IsPlain zero i white t t' plain run =
        let e : t ≡ t' = some-injective run in rw (← e) plain
    remove_white_from-IsPlain (suc rounds) i white t t' plain run =
        elim (Bool-cases (is_white white (key t.entries i))) [
          | inl pale ↦
              let (r, deleted, rest) =
                >>=-eq-some (table_delete N S t (key t.entries i)) _
                  (rw (remove_white_from, pale) at run) in
              remove_white_from-IsPlain rounds (i + 2) white (r.1) t'
                (table_delete-IsPlain t (key t.entries i) r plain deleted) rest
          | inr dark ↦
              remove_white_from-IsPlain rounds (i + 2) white t t' plain
                (rw (remove_white_from, dark) at run)
        ]

    pub table_remove_white-IsPlain :
        (white : ℕ → Bool) (t t' : Table N.Double)
        → IsPlain t.entries
        → table_remove_white N S white t ≡ some t'
        → IsPlain t'.entries
    unfolding table_remove_white
    table_remove_white-IsPlain white t t' plain run =
        remove_white_from-IsPlain ((t.capacity_mask + 1) / 2) 0 white t t' plain run
