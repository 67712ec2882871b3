-- ===== src/Array.antt =====
-- src/array.c, and the array operations of src/object.c. A cell that has been allocated and not
-- written is `none`.
pub mod Contents
pub mod Methods
use xan.Base.{
  ℕ, zero, suc, ◌+◌, ◌-◌, ◌*◌, ◌^◌, Bool, true, false, List, [], ◌∷◌, ◌++◌, Option, none, some,
  ◌>>=◌, ltb, leb, if◌then◌else◌, length, get_or, set, replicate, take, ℤ, pos, negsuc,
}
use xan.Memory.{grow_capacity, round_up_pow_2}
use xan.Value.{Value, nil}

-- `ObjArray`, less the header that it shares with instances.
pub record ObjArray (D : Type 0) : Type 0 where
  pub count : ℕ
  pub capacity : ℕ
  pub values : List (Option (Value D))

-- `GROW_ARRAY`: the old cells, as far as they fit, and fresh ones.
abbrev pub grow_array {ℓ} : {A : Type ℓ} → List (Option A) → ℕ → List (Option A)
grow_array cells count = take count cells ++ replicate (count - length cells) none

module _ {D : Type 0} where
  unfoldable pub new_array : ℕ → ObjArray D
  new_array zero = record { count = 0; capacity = 0; values = [] }
  new_array (suc n) =
      let capacity = round_up_pow_2 (suc n) in
      record { count = suc n; capacity = capacity; values = grow_array [] capacity }

  -- The loop `for(size_t i = from; ...; i++) values[i] = v` over `rounds` cells.
  unfoldable pub fill : ℕ → ℕ → Value D → List (Option (Value D)) → List (Option (Value D))
  fill zero i v cells = cells
  fill (suc rounds) i v cells = fill rounds (i + 1) v (set cells i (some v))

  -- The array that `ArrayInit` returns for a count and a value.
  unfoldable pub array_init : ℕ → Value D → ObjArray D
  unfolding new_array fill
  array_init count v =
      let ret = new_array count in record ret { values = fill ret.count 0 v ret.values }

  unfoldable pub write_value_array : ObjArray D → Value D → ObjArray D
  write_value_array a v =
      let small = ltb a.capacity (a.count + 1) in
      let bigger = grow_capacity a.capacity in
      let capacity = (if small then bigger else a.capacity) in
      let cells = (if small then grow_array a.values bigger else a.values) in
      record { count = a.count + 1; capacity = capacity; values = set cells a.count (some v) }

  -- `none` is the failed assertion on a negative index.
  unfoldable pub set_array : ObjArray D → ℤ → Value D → Option (ObjArray D)
  unfolding fill
  set_array a (negsuc n) v = none
  set_array a (pos idx) v =
      let small = leb a.capacity idx in
      let bigger = grow_capacity (round_up_pow_2 idx) in
      let capacity = (if small then bigger else a.capacity) in
      let cells = (if small then grow_array a.values bigger else a.values) in
      let padded = fill (idx - a.count) a.count nil cells in
      some (record {
        count = if leb a.count idx then idx + 1 else a.count;
        capacity = capacity;
        values = set padded idx (some v);
      })

  -- `none` is the result `true`: the index is out of bounds.
  unfoldable pub get_array : ObjArray D → ℤ → Option (Option (Value D))
  get_array a (negsuc n) = none
  get_array a (pos idx) = if leb a.count idx then none else some (get_or a.values idx none)

  -- The loop of `duplicateArray`.
  unfoldable pub copy_cells :
      ℕ → ℕ → List (Option (Value D)) → List (Option (Value D)) → List (Option (Value D))
  copy_cells zero i source dest = dest
  copy_cells (suc rounds) i source dest =
      copy_cells rounds (i + 1) source (set dest i (get_or source i none))

  unfoldable pub duplicate_array : ObjArray D → ObjArray D
  unfolding new_array copy_cells
  duplicate_array source =
      let dest = new_array source.count in
      record dest { values = copy_cells source.count 0 source.values dest.values }
