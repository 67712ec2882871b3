-- ===== src/Table/Methods.antt =====
-- `tableGet`, `tableSet` and `tableDelete` on a table that represents a function.
use xan.Base.{
  ℕ, ◌*◌, ◌^◌, ◌<◌, ◌≡◌, sym, inl, inr, arith, Bool, true, false, not, Option, none, some,
  Bool-cases, ap, ◌==◌,
}
use xan.Value.{Val, nil, bool, Number, Strings, is_nil}
use xan.Table.{key, value, write, Table, store, table_get, table_set, table_delete, bury}
use xan.Table.Slots.{Finds, present, absent}
use xan.Table.Writes.{update}
use xan.Table.Model.{Models, search-Finds}
use xan.Table.Entries.{
  is_none, used_below-live, found-says, grow-Models, store-Models, unsaid, buried,
}

module _ (N : Number) (S : Strings) (t : Table N.Double) (f : Val N → Option (Val N))
    (m : Models N S t f) where
  -- `tableGet` on a table that represents a function ends, and reads the function at the key.
  pub table_get-Models : (x : Val N) → table_get N S t x ≡ some (f x)
  unfolding table_get
  table_get-Models x =
      let (i, run, found) = search-Finds N S t f x m in
      rw run (ap some (found-says N S t f m i x found))

  -- `tableSet` of a key that is not nil ends, on a table of at most 2 ^ 31 cells that represents a
  -- function. It reports whether the key was absent, and the table then represents the function with
  -- the new value at every key that is equal to the given one.
  pub table_set-Models :
      (x v : Val N)
      → is_nil x ≡ false
      → t.capacity_mask < 2 ^ 31
      → (t' : Table N.Double) × (table_set N S t x v ≡ some (is_none (f x), t'))
        × Models N S t' (update N S f x (some v))
  unfolding table_set
  table_set-Models x v live small =
      let (t', grown, m', room) = grow-Models N S t f m small in
      let (i, run, found) = search-Finds N S t' f x m' in
      let (fresh, models) = store-Models N S t' f m' i x v live room found in
      (
        (store N S t' i x v).1,
        rw (grown, run) (ap (λ (b : Bool). some (b, (store N S t' i x v).1)) fresh),
        models,
      )

  -- `tableDelete` on a table that represents a function ends. It reports whether the key was there,
  -- and the table then represents the function with nothing at every key that is equal to the given one.
  pub table_delete-Models :
      (x : Val N)
      → (t' : Table N.Double) × (table_delete N S t x ≡ some (not (is_none (f x)), t'))
        × Models N S t' (update N S f x none)
  unfolding table_delete bury
  table_delete-Models x = elim (Bool-cases (t.count == 0)) [
    | inl vacant ↦
        let (nothing, models) =
          unsaid N S t f m x (λ s ls live. absurd (unused s ls live vacant)) in
        (t, rw (vacant, nothing), models)
    | inr filled ↦
        let (i, run, found) = search-Finds N S t f x m in rw (filled, run) (at_entry i found)
  ]
    where
      unused :
          (s : ℕ)
          → s < 2 ^ m.exponent
          → is_nil (key t.entries (2 * s)) ≡ false
          → (t.count == 0) ≡ true
          → ⊥
      unused s ls live vacant =
          ground (arith, m.counted, used_below-live t.entries s (2 ^ m.exponent) ls live)

      at_entry :
          (i : ℕ)
          → Finds N S m.exponent t.entries x i
          → (t' : Table N.Double) × (some (bury N S t i) ≡ some (not (is_none (f x)), t'))
            × Models N S t' (update N S f x none)
      at_entry i (present s ls at here same) =
          let says = found-says N S t f m i x (present s ls at here same) in
          let e : f x ≡ some (value t.entries i) = sym (rw here at says) in
          (
            record t { entries = write t.entries i nil (bool true) },
            rw (here, e),
            rw at (buried N S t f m s x ls (rw at at here) (rw at at same)),
          )
      at_entry i (absent s ls at dead r says) =
          let (nothing, models) = unsaid N S t f m x says in (t, rw (dead, nothing), models)
