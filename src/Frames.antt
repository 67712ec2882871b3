-- ===== src/Frames.antt =====
-- src/vm.h and src/vm.c: the stack of a thread, its call frames and its open upvalues. A pointer into
-- the stack is an address in units of a value, so `stack[i]` is at the address of the stack plus `i`.
pub mod Growth
pub mod Entering
pub mod Calls
pub mod Upvalues
pub mod Closing
use xan.Base.{
  ℕ, zero, suc, ◌+◌, ◌-◌, ◌<◌, ◌≡◌, Bool, true, false, List, [], ◌∷◌, map, Option, none, some,
  ◌>>=◌, if◌then◌else◌, ltb, leb, ◌==◌, get_or, set, length,
}
use xan.Bytecode.{ra, u8}
use xan.Memory.{grow_capacity}
use xan.Value.{Value, nil, obj, is_nil}
use xan.Collector.Roots.{Slot, value, shift, return_to}

-- An upvalue whose `location` points into the stack.
pub record OpenUpvalue : Type 0 where
  pub upvalue : ℕ
  pub location : ℕ

-- What `thread` says of its stack. `closed` has the upvalues whose `location` is their own `closed`.
pub record CallStack (D : Type 0) : Type 0 where
  pub address : ℕ
  pub cells : List (Slot D)
  pub stack_top : ℕ
  pub stack_last : ℕ
  pub base : ℕ
  pub open_upvalues : List OpenUpvalue
  pub closed : List (ℕ × Value D)

-- `realloc` of the stack to a number of cells: the new address and the new cells.
pub record Realloc (D : Type 0) : Type 0 where
  pub new_address : List (Slot D) → ℕ → ℕ
  pub new_cells : List (Slot D) → ℕ → List (Slot D)
  pub new_cells_length : (cells : List (Slot D)) (n : ℕ) → length (new_cells cells n) ≡ n
  pub new_cells_kept :
      (cells : List (Slot D)) (n i : ℕ) (d : Slot D)
      → i < length cells
      → i < n
      → get_or (new_cells cells n) i d ≡ get_or cells i d

-- The loop of `growStack` over the size.
unfoldable pub grow_to : ℕ → ℕ → ℕ → Option ℕ
grow_to zero size needed = if ltb size needed then none else some size
grow_to (suc fuel) size needed =
    let rest = grow_to fuel (grow_capacity size) needed in
    if ltb size needed then rest else some size

abbrev pub relocate : ℕ → ℕ → List OpenUpvalue → List OpenUpvalue
relocate old new [] = []
relocate old new (u ∷ us) = record u { location = u.location + new - old } ∷ relocate old new us

module _ {D : Type 0} where
  abbrev pub slot_at : CallStack D → ℕ → Slot D
  slot_at t i = get_or t.cells i (value nil)

  abbrev pub raise_top : CallStack D → ℕ → CallStack D
  raise_top t used = if ltb t.stack_top used then record t { stack_top = used } else t

  -- What `incFrame` and `incCFrame` do last: `base[-2]` and `base[-3]`, and the new base.
  unfoldable pub save : CallStack D → ℕ → Slot D → Slot D → CallStack D
  save t distance link function =
      let base = t.base + distance + 1 in
      record t {
        base = base;
        cells = set (set t.cells (base - 2 - t.address) link) (base - 3 - t.address) function;
      }

  module _ (R : Realloc D) where
    -- The size is `stackLast - stack + 1`. The loop grows it in every round.
    unfoldable pub grow_stack : CallStack D → ℕ → Option (CallStack D)
    unfolding grow_to
    grow_stack t space_needed = do
      n ← grow_to space_needed (t.stack_last + 1 - t.address) space_needed
      let new = R.new_address t.cells n
      some (record {
        address = new;
        cells = R.new_cells t.cells n;
        stack_top = new + (t.stack_top - t.address);
        stack_last = new + n - 1;
        base = t.base + new - t.address;
        open_upvalues = relocate t.address new t.open_upvalues;
        closed = t.closed;
      })

    -- What they do first.
    unfoldable pub make_room : CallStack D → ℕ → ℕ → Option (CallStack D)
    unfolding grow_stack
    make_room t stack_used distance = do
      grown ←
          (if ltb t.stack_last (t.base + distance + stack_used + 2)
            then grow_stack t (t.base + distance + 1 - t.address + stack_used + 2)
            else some t)
      some (raise_top grown (grown.base + distance + stack_used + 2))

    unfoldable pub inc_c_frame : CallStack D → ℕ → ℕ → Option (CallStack D)
    unfolding make_room save
    inc_c_frame t stack_used distance = do
      roomy ← make_room t stack_used distance
      some (save roomy distance (shift (distance + 1)) (value nil))

    -- `bytecode` is the instruction in front of `ip`.
    unfoldable pub inc_frame : CallStack D → ℕ → ℕ → ℕ → ℕ → ℕ → Option (CallStack D)
    unfolding make_room save
    inc_frame t stack_used distance function ip bytecode = do
      roomy ← make_room t stack_used distance
      some (save roomy distance (return_to ip bytecode) (value (obj function)))

  -- `IS_NIL` of a cell.
  abbrev pub is_nil_slot : Slot D → Bool
  is_nil_slot (value v) = is_nil v
  is_nil_slot (shift n) = false
  is_nil_slot (return_to ip bytecode) = false

  -- `none` is a failed assertion on `base[-3]`, or a `base[-2]` that the frame's kind does not save.
  unfoldable pub dec_c_frame : CallStack D → Option (CallStack D)
  dec_c_frame t = elim (slot_at t (t.base - 2 - t.address)) [
    | shift n ↦
        if is_nil_slot (slot_at t (t.base - 3 - t.address))
        then some (record t { base = t.base - n })
        else none
    | value v ↦ none
    | return_to ip bytecode ↦ none
  ]

  unfoldable pub dec_frame : CallStack D → Option (ℕ × CallStack D)
  dec_frame t = elim (slot_at t (t.base - 2 - t.address)) [
    | return_to ip bytecode ↦
        if is_nil_slot (slot_at t (t.base - 3 - t.address))
        then none
        else some (ip, record t { base = t.base - (u8 (ra bytecode + 1) + 2) })
    | value v ↦ none
    | shift n ↦ none
  ]

-- `ObjFunction`, with the address of its code.
pub record Function : Type 0 where
  pub min_arity : ℕ
  pub max_arity : ℕ
  pub stack_used : ℕ
  pub code : ℕ
  pub code_offsets : List ℕ

-- The outcomes of `call`: an exception, or the frame and where to go on.
pub data Called (D : Type 0) : Type 0 where
  too_few : Called D
  too_many : Called D
  entered : CallStack D → ℕ → Called D

module _ {D : Type 0} (R : Realloc D) where
  -- `call` of the closure `closure` of `f` from the instruction `bytecode` in front of `ip`.
  unfoldable pub call : CallStack D → Function → ℕ → ℕ → ℕ → ℕ → ℕ → Option (Called D)
  unfolding inc_frame
  call t f closure callee_reg arg_count ip bytecode =
      if ltb arg_count f.min_arity
      then some too_few
      else if ltb f.max_arity arg_count
      then some too_many
      else (do
        t' ← inc_frame R t f.stack_used (callee_reg + 2) closure ip bytecode
        some (entered t' (f.code + get_or f.code_offsets (arg_count - f.min_arity) 0)))

-- The upvalue of the slot `local`, and the list: `new` is the address of a new upvalue.
unfoldable pub capture : ℕ → ℕ → List OpenUpvalue → ℕ × List OpenUpvalue
capture new local [] = (new, record { upvalue = new; location = local } ∷ [])
capture new local (u ∷ us) =
    let rest = capture new local us in
    if ltb local u.location
    then (rest.0, u ∷ rest.1)
    else if u.location == local
    then (u.upvalue, u ∷ us)
    else (new, record { upvalue = new; location = local } ∷ u ∷ us)

module _ {D : Type 0} where
  unfoldable pub capture_upvalue : ℕ → CallStack D → ℕ → ℕ × CallStack D
  unfolding capture
  capture_upvalue new t local =
      let found = capture new local t.open_upvalues in
      (found.0, record t { open_upvalues = found.1 })

  -- The value at an address in the stack.
  abbrev pub value_in : CallStack D → ℕ → Value D
  value_in t location = elim (slot_at t (location - t.address)) [
    | value v ↦ v
    | shift n ↦ nil
    | return_to ip bytecode ↦ nil
  ]

  -- The loop of `closeUpvalues`: the upvalues that stay open, and the closed ones.
  unfoldable pub close_from :
      CallStack D
      → ℕ
      → List OpenUpvalue
      → List (ℕ × Value D)
      → List OpenUpvalue × List (ℕ × Value D)
  close_from t last [] closed = ([], closed)
  close_from t last (u ∷ us) closed =
      let rest = close_from t last us ((u.upvalue, value_in t u.location) ∷ closed) in
      if leb last u.location then rest else (u ∷ us, closed)

  unfoldable pub close_upvalues : CallStack D → ℕ → CallStack D
  unfolding close_from
  close_upvalues t last =
      let (still_open, closed) = close_from t last t.open_upvalues t.closed in
      record t { open_upvalues = still_open; closed = closed }

-- `*uv->location`, where an upvalue is open or closed.
abbrev pub find_location : ℕ → List OpenUpvalue → Option ℕ
find_location a [] = none
find_location a (u ∷ us) =
    let rest = find_location a us in if a == u.upvalue then some u.location else rest

abbrev pub find_closed : {D : Type 0} → ℕ → List (ℕ × Value D) → Option (Value D)
find_closed a [] = none
find_closed a ((b, v) ∷ rest) = let later = find_closed a rest in if a == b then some v else later

unfoldable pub read_upvalue : {D : Type 0} → CallStack D → ℕ → Option (Value D)
read_upvalue t a = elim (find_location a t.open_upvalues) [
  | some location ↦ some (value_in t location)
  | none ↦ find_closed a t.closed
]
