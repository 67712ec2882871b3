-- ===== src/Table.antt =====
-- src/table.c: a hash table with open addressing. `entries` holds keys at even and values at odd
-- indices; an entry with a nil key is empty if its value is nil and a tombstone otherwise.
pub mod Probe
pub mod Slots
pub mod Counting
pub mod Writes
pub mod Resize
pub mod Model
pub mod Entries
pub mod Methods
pub mod RemoveWhite
use xan.Base.{
  ℕ, zero, suc, ◌+◌, ◌-◌, ◌*◌, ◌/◌, ◌%◌, ◌^◌, bit_and, Bool, true, false, ◌&&◌, not, List, [], ◌∷◌,
  Option, none, some, ◌>>=◌, ltb, ◌==◌, if◌then◌else◌, get_or, set, replicate, length,
}
use xan.Memory.{grow_capacity, round_up_pow_2}
use xan.Value.{Val, Value, nil, bool, number, obj, is_nil, Number, Strings, values_equal, hash}

-- The header of the object (`INSTANCE_FIELDS`) plays no part in what a table holds.
pub record Table (D : Type 0) : Type 0 where
  pub count : ℕ
  pub capacity_mask : ℕ
  pub entries : List (Value D)

-- `tombstone ? tombstone : e`.
abbrev pub first_free : Option ℕ → ℕ → ℕ
first_free none i = i
first_free (some t) i = t

module _ {D : Type 0} where
  -- `KEY(e)` and `VALUE(e)` of the entry at an index.
  abbrev pub key : List (Value D) → ℕ → Value D
  key es i = get_or es i nil

  abbrev pub value : List (Value D) → ℕ → Value D
  value es i = get_or es (i + 1) nil

  -- `KEY(e) = k; VALUE(e) = v`.
  abbrev pub write : List (Value D) → ℕ → Value D → Value D → List (Value D)
  write es i k v = set (set es i k) (i + 1) v

-- `!IS_NIL(*e) && isWhite(AS_OBJ(*e))`.
abbrev pub is_white : {D : Type 0} → (ℕ → Bool) → Value D → Bool
is_white white nil = false
is_white white (bool b) = false
is_white white (number d) = false
is_white white (obj p) = white p

module _ (N : Number) (S : Strings) where
  -- The loop of `findEntry`. An entry is its index; `none` is a search that goes on for ever.
  unfoldable pub probe : ℕ → List (Val N) → ℕ → Val N → Option ℕ → ℕ → Option ℕ
  probe zero es mask k tombstone index = none
  probe (suc fuel) es mask k tombstone index =
      let next = bit_and ((index + 2) % 2 ^ 32) mask in
      let walk = probe fuel es mask k tombstone next in
      let mark = probe fuel es mask k (some (first_free tombstone index)) next in
      if is_nil (key es index)
      then if is_nil (value es index) then some (first_free tombstone index) else mark
      else if values_equal N k (key es index)
      then some index
      else walk

  unfoldable pub find_entry : List (Val N) → ℕ → Val N → Option ℕ
  find_entry es mask k = probe (mask + 1) es mask k none (bit_and (hash N S k) (mask - 1) % 2 ^ 32)

  -- `none` inside: the key is absent, and `*ret` is left alone.
  unfoldable pub table_get : Table N.Double → Val N → Option (Option (Val N))
  table_get t k = do
    i ← find_entry t.entries t.capacity_mask k
    some (if is_nil (key t.entries i) then none else some (value t.entries i))

  -- The loop of `adjustCapacity` over the entries from `i` on: the new array and the count.
  unfoldable pub reinsert : ℕ → ℕ → List (Val N) → List (Val N) → ℕ → ℕ → Option (List (Val N) × ℕ)
  reinsert zero i old es mask n = some (es, n)
  reinsert (suc rounds) i old es mask n =
      let skip = reinsert rounds (i + 2) old es mask n in
      let move = (do
        dest ← find_entry es mask (key old i)
        reinsert rounds (i + 2) old (write es dest (key old i) (value old i)) mask (n + 1)) in
      if is_nil (key old i) then skip else move

  unfoldable pub adjust_capacity : Table N.Double → ℕ → Option (Table N.Double)
  adjust_capacity t mask = do
    r ← reinsert ((t.capacity_mask + 1) / 2) 0 t.entries (replicate (mask + 1) nil) mask 0
    some (record { count = r.1; capacity_mask = mask; entries = r.0 })

  unfoldable pub new_table : ℕ → Option (Table N.Double)
  new_table count =
      let n = if count == 0 then 1 else count in
      adjust_capacity (record { count = 0; capacity_mask = 0; entries = [] })
        (round_up_pow_2 (2 * n % 2 ^ 64) - 1)

  -- `t->count + 1 > (t->capacityMask / 2) * TABLE_MAX_LOAD`, both sides times four.
  abbrev pub is_loaded : Table N.Double → Bool
  is_loaded t = ltb (t.capacity_mask / 2 * 3) (4 * (t.count + 1))

  unfoldable pub grow : Table N.Double → Option (Table N.Double)
  grow t =
      if is_loaded t then adjust_capacity t (grow_capacity (t.capacity_mask + 1) - 1) else some t

  -- The end of `tableSet`, at the entry that the search found.
  unfoldable pub store : Table N.Double → ℕ → Val N → Val N → Bool × Table N.Double
  store t i k v =
      let is_new_key = is_nil (key t.entries i) in
      (
        is_new_key,
        record t {
          count = if is_new_key && is_nil (value t.entries i) then t.count + 1 else t.count;
          entries = write t.entries i k v;
        },
      )

  unfoldable pub table_set : Table N.Double → Val N → Val N → Option (Bool × Table N.Double)
  table_set t k v = do
    t' ← grow t
    i ← find_entry t'.entries t'.capacity_mask k
    some (store t' i k v)

  -- The end of `tableDelete`, at the entry that the search found.
  unfoldable pub bury : Table N.Double → ℕ → Bool × Table N.Double
  bury t i =
      if is_nil (key t.entries i)
      then (false, t)
      else (true, record t { entries = write t.entries i nil (bool true) })

  unfoldable pub table_delete : Table N.Double → Val N → Option (Bool × Table N.Double)
  table_delete t k =
      let search = (do i ← find_entry t.entries t.capacity_mask k; some (bury t i)) in
      if t.count == 0 then some (false, t) else search

  -- The loop of `tableAddAll` over the entries of `from` from `i` on.
  unfoldable pub add_from : ℕ → ℕ → List (Val N) → Table N.Double → Option (Table N.Double)
  add_from zero i es to = some to
  add_from (suc rounds) i es to =
      let skip = add_from rounds (i + 2) es to in
      let add = (do r ← table_set to (key es i) (value es i); add_from rounds (i + 2) es r.1) in
      if is_nil (key es i) then skip else add

  unfoldable pub table_add_all : Table N.Double → Table N.Double → Option (Table N.Double)
  table_add_all from to = add_from ((from.capacity_mask + 1) / 2) 0 from.entries to

  unfoldable pub duplicate_table : Table N.Double → Option (Table N.Double)
  duplicate_table source = do
    dest ← new_table ((source.capacity_mask + 1) / 2)
    table_add_all source dest

  -- The loop of `tableRemoveWhite` over the entries from `i` on. The keys of the table of strings are
  -- objects, so `AS_OBJ` of another key does not arise.
  unfoldable pub remove_white_from : ℕ → ℕ → (ℕ → Bool) → Table N.Double → Option (Table N.Double)
  remove_white_from zero i white t = some t
  remove_white_from (suc rounds) i white t =
      let skip = remove_white_from rounds (i + 2) white t in
      let remove = (do
        r ← table_delete t (key t.entries i)
        remove_white_from rounds (i + 2) white r.1) in
      if is_white white (key t.entries i) then remove else skip

  unfoldable pub table_remove_white : (ℕ → Bool) → Table N.Double → Option (Table N.Double)
  unfolding remove_white_from
  table_remove_white white t = remove_white_from ((t.capacity_mask + 1) / 2) 0 white t
