-- ===== src/Chunk.antt =====
-- src/chunk.c: the code of a function, and its pool of constants with the table that finds a
-- constant's index. A cell that has been allocated and not written is `none`.
pub mod Code
pub mod Pool
use xan.Base.{
  ℕ, ◌+◌, ◌-◌, Bool, true, false, List, [], ◌∷◌, Option, none, some, ◌>>=◌, ltb, if◌then◌else◌, set,
}
use xan.Memory.{grow_capacity}
use xan.Value.{Val, Value, nil, bool, number, obj, Number, Strings, is_key}
use xan.Array.{ObjArray, grow_array, new_array, write_value_array}
use xan.Table.{Table, new_table, table_get, table_set}

pub record Chunk (D : Type 0) : Type 0 where
  pub count : ℕ
  pub capacity : ℕ
  pub code : List (Option ℕ)
  pub lines : List (Option ℕ)
  pub constants : ObjArray D
  pub constant_indices : Table D

-- `AS_NUMBER`, on a value that is a number.
abbrev as_number : {D : Type 0} → Value D → Option D
as_number nil = none
as_number (bool b) = none
as_number (number d) = some d
as_number (obj p) = none

-- The index of the instruction and the chunk.
unfoldable pub write_chunk : {D : Type 0} → Chunk D → ℕ → ℕ → ℕ × Chunk D
write_chunk chunk opcode line =
    let count = chunk.count in
    let small = ltb chunk.capacity (count + 1) in
    let bigger = grow_capacity chunk.capacity in
    (
      count,
      record chunk {
        count = count + 1;
        capacity = if small then bigger else chunk.capacity;
        code = set (if small then grow_array chunk.code bigger else chunk.code) count (some opcode);
        lines =
            set (if small then grow_array chunk.lines bigger else chunk.lines) count (some line);
      },
    )

module _ (N : Number) (S : Strings) where
  unfoldable pub init_chunk : Option (Chunk N.Double)
  init_chunk = do
    t ← new_table N S 0
    some (record {
      count = 0;
      capacity = 0;
      code = [];
      lines = [];
      constants = new_array 0;
      constant_indices = t;
    })

  -- The end of `addConstant`, with the table of indices so far.
  unfoldable pub push_constant : Chunk N.Double → Val N → Table N.Double → ℕ × Chunk N.Double
  push_constant chunk value indices =
      let pushed = write_value_array chunk.constants value in
      (pushed.count - 1, record chunk { constants = pushed; constant_indices = indices })

  -- `addConstant` on a string or number, after the search for its index.
  unfoldable pub after_search :
      Chunk N.Double → Val N → Option (Val N) → Option (ℕ × Chunk N.Double)
  unfolding push_constant
  after_search chunk value (some ret) = do d ← as_number ret; some (N.to_int64 d, chunk)
  after_search chunk value none = do
    r ← table_set N S chunk.constant_indices value (number (N.of_int64 chunk.constants.count))
    some (push_constant chunk value r.1)

  -- The index of the constant and the chunk.
  unfoldable pub add_constant : Chunk N.Double → Val N → Option (ℕ × Chunk N.Double)
  unfolding after_search push_constant
  add_constant chunk value =
      let search = (do
        r ← table_get N S chunk.constant_indices value
        after_search chunk value r) in
      if is_key N S value then search else some (push_constant chunk value chunk.constant_indices)
