-- ===== src/Collector/Roots.antt =====
-- src/memory.c, `markThread`: the walk from the top of a stack down through its call frames.
use xan.Base.{
  ℕ, zero, suc, ◌+◌, ◌-◌, Bool, true, false, List, [], ◌∷◌, ◌++◌, leb, if◌then◌else◌, get_or,
  length,
}
use xan.Bytecode.{ra, u8}
use xan.Value.{Value, nil, is_nil}

-- A cell of a stack: a value, the distance to the caller's base that `incCFrame` saves, or the
-- address that a call returns to, with the instruction in front of it.
pub data Slot (D : Type 0) : Type 0 where
  value : Value D → Slot D
  shift : ℕ → Slot D
  return_to : ℕ → ℕ → Slot D

module _ {D : Type 0} where
  -- What `markValue` sees of a cell.
  abbrev pub value_at : List (Slot D) → ℕ → Value D
  value_at stack i = elim (get_or stack i (value nil)) [
    | value v ↦ v
    | shift n ↦ nil
    | return_to ip bytecode ↦ nil
  ]

  -- The distance from a base to the one below, by whether `base[-3]` is nil and the cell `base[-2]`.
  -- The two are written together, so the other two cases do not arise.
  abbrev pub frame_size : Bool → Slot D → ℕ
  frame_size true (shift n) = n
  frame_size false (return_to ip bytecode) = u8 (ra bytecode + 1) + 2
  frame_size true _ = 0
  frame_size false _ = 0

  -- The inner loop, with `n` cells left: the values that it marks.
  unfoldable pub registers : List (Slot D) → ℕ → ℕ → List (Value D)
  registers stack base zero = []
  registers stack base (suc n) =
      let rest = registers stack base n in if leb base (suc n) then value_at stack n ∷ rest else []

  -- The outer loop with `n` cells left.
  unfoldable pub walk_frames : ℕ → List (Slot D) → ℕ → ℕ → List (Value D)
  unfolding registers
  walk_frames zero stack base n = []
  walk_frames (suc fuel) stack base n =
      let marked = registers stack base n in
      let n' = (if leb base n then base - 1 else n) in
      let below =
        walk_frames fuel stack
          (base
            - frame_size (is_nil (value_at stack (n' - 2))) (get_or stack (base - 2) (value nil)))
          (n' - 2) in
      if leb n 1 then [] else if leb n' 1 then marked else marked ++ value_at stack (n' - 2) ∷ below

  -- A round of the outer loop passes two cells at least.
  unfoldable pub walk : List (Slot D) → ℕ → List (Value D)
  unfolding walk_frames
  walk stack base = walk_frames (length stack) stack base (length stack)
