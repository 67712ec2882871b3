-- ===== src/Run.antt =====
-- src/vm.c, `run`: the instructions that work on the registers of one function, its jumps, and the
-- handlers of exceptions in it. An instruction that needs the heap, a table or a call is left to
-- `elsewhere`.
pub mod Jumps
pub mod Handlers
use xan.Base.{
  ℕ, ◌+◌, ◌-◌, Bool, true, false, not, ◌&&◌, List, [], ◌∷◌, Option, none, some, if◌then◌else◌, ◌==◌,
  get_or, set, length, ltb,
}
use xan.Bytecode.{opcode, ra, rb, rc, rd, jump_bias}
use xan.Bytecode.Opcode.{
  ByteCode, of_code, op_const_num, op_primitive, op_negate, op_not, op_equal, op_neq, op_greater,
  op_leq, op_geq, op_less, op_addvv, op_subvv, op_mulvv, op_divvv, op_modvv, op_addvk, op_subvk,
  op_mulvk, op_divvk, op_modvk, op_jump, op_copy_jump_if_false, op_copy_jump_if_true,
  op_jump_if_false, op_jump_if_true, op_mov, op_begin_try, op_end_try,
}
use xan.Value.{Value, nil, bool, number, obj, Val, Number, values_equal}

-- The operators on a `double`, and `fmod`.
pub record Arithmetic (D : Type 0) : Type 0 where
  pub negated : D → D
  pub plus : D → D → D
  pub minus : D → D → D
  pub times : D → D → D
  pub divided : D → D → D
  pub fmod : D → D → D
  pub less : D → D → Bool
  pub at_most : D → D → Bool

-- The state of `run` in a function: `ip` counts from the start of its code, `registers` begins at
-- `base`, and `self` is `base[-1]`. `tries` has the last handler first.
pub record Running (D : Type 0) : Type 0 where
  pub code : List ℕ
  pub constants : List (Value D)
  pub ip : ℕ
  pub self : Value D
  pub registers : List (Value D)
  pub tries : List (ℕ × ℕ)

-- Going on, an exception with a message, an instruction that is not modelled, or a write behind the
-- array of handlers.
pub data Outcome (D : Type 0) : Type 0 where
  continues : Running D → Outcome D
  throws : Running D → Outcome D
  elsewhere : Running D → Outcome D
  overflows : Running D → Outcome D

-- `TRY_MAX`, the length of the array of handlers.
abbrev pub try_max : ℕ
try_max = 16

module _ {D : Type 0} where
  abbrev pub register : Running D → ℕ → Value D
  register s r = get_or s.registers r nil

  abbrev pub assign : Running D → ℕ → Value D → Running D
  assign s r v = record s { registers = set s.registers r v }

  abbrev pub constant : Running D → ℕ → Value D
  constant s i = get_or s.constants i nil

  -- `ip += RJump(bytecode)`.
  abbrev pub jumped : Running D → ℕ → Running D
  jumped s w = record s { ip = s.ip + rd w - jump_bias }

  -- `getPrimitive`; another number fails an assertion.
  abbrev pub primitive_of : ℕ → Value D
  primitive_of p = if p == 1 then bool true else if p == 2 then bool false else nil

  -- `base[(int16_t)RD(bytecode)]` of `OP_MOV`.
  abbrev pub moved : Running D → ℕ → Value D
  moved s d = if d == 0xffff then s.self else register s d

  -- `BINARY_OPVV` and `BINARY_OPVK`.
  abbrev pub binary : Running D → ℕ → (D → D → Value D) → Value D → Value D → Outcome D
  binary s a f (number x) (number y) = continues (assign s a (f x y))
  binary s a f _ _ = throws s

  -- `OP_ADDVV` and `OP_ADDVK`: on two strings they call `concatenate`.
  abbrev pub addition : (ℕ → Bool) → Running D → ℕ → (D → D → D) → Value D → Value D → Outcome D
  addition is_string s a f (number x) (number y) = continues (assign s a (number (f x y)))
  addition is_string s a f (obj p) (obj q) =
      if is_string p && is_string q then elsewhere s else throws s
  addition is_string s a f _ _ = throws s

  -- `isFalsey`, where `is_empty` says which objects are arrays or tables without entries.
  abbrev pub is_falsey : (ℕ → Bool) → Value D → Bool
  is_falsey is_empty nil = true
  is_falsey is_empty (bool b) = not b
  is_falsey is_empty (number d) = false
  is_falsey is_empty (obj p) = is_empty p

  -- The two words of a conditional jump: the jump behind the test is taken, or passed.
  abbrev pub branch : Running D → Bool → Running D
  branch s taken =
      let w = get_or s.code s.ip 0 in
      if taken then jumped (record s { ip = s.ip + 1 }) w else record s { ip = s.ip + 1 }

abbrev or_else : {A : Type 0} → Option A → A → A
or_else none a = a
or_else (some x) a = x

module _ (N : Number) (M : Arithmetic N.Double) (is_string is_empty : ℕ → Bool) where
  -- The instructions by groups, with `none` for one of another group; `ip` is behind the word `w`.
  -- Constants and the operators on one value.
  unfoldable pub load : ByteCode → Running N.Double → ℕ → Option (Outcome N.Double)
  load op_const_num s w = some (continues (assign s (ra w) (constant s (rd w))))
  load op_primitive s w = some (continues (assign s (ra w) (primitive_of (rd w))))
  load op_negate s w = some (elim (register s (rd w)) [
    | number x ↦ continues (assign s (ra w) (number (M.negated x)))
    | _ ↦ throws s
  ])
  load op_not s w =
      some (continues (assign s (ra w) (bool (is_falsey is_empty (register s (rd w))))))
  load _ s w = none

  -- The operators on two values.
  unfoldable pub operate : ByteCode → Running N.Double → ℕ → Option (Outcome N.Double)
  operate op_equal s w =
      some (
        continues (assign s (ra w) (bool (values_equal N (register s (rb w)) (register s (rc w))))))
  operate op_neq s w = some (
      continues
        (assign s (ra w) (bool (not (values_equal N (register s (rb w)) (register s (rc w)))))))
  operate op_greater s w =
      some (binary s (ra w) (λ x y. bool (M.less y x)) (register s (rb w)) (register s (rc w)))
  operate op_geq s w =
      some (binary s (ra w) (λ x y. bool (M.at_most y x)) (register s (rb w)) (register s (rc w)))
  operate op_less s w =
      some (binary s (ra w) (λ x y. bool (M.less x y)) (register s (rb w)) (register s (rc w)))
  operate op_leq s w =
      some (binary s (ra w) (λ x y. bool (M.at_most x y)) (register s (rb w)) (register s (rc w)))
  operate op_addvv s w =
      some (addition is_string s (ra w) M.plus (register s (rb w)) (register s (rc w)))
  operate op_subvv s w =
      some (binary s (ra w) (λ x y. number (M.minus x y)) (register s (rb w)) (register s (rc w)))
  operate op_mulvv s w =
      some (binary s (ra w) (λ x y. number (M.times x y)) (register s (rb w)) (register s (rc w)))
  operate op_divvv s w =
      some (binary s (ra w) (λ x y. number (M.divided x y)) (register s (rb w)) (register s (rc w)))
  operate op_modvv s w =
      some (binary s (ra w) (λ x y. number (M.fmod x y)) (register s (rb w)) (register s (rc w)))
  operate op_addvk s w =
      some (addition is_string s (ra w) M.plus (register s (rb w)) (constant s (rc w)))
  operate op_subvk s w =
      some (binary s (ra w) (λ x y. number (M.minus x y)) (register s (rb w)) (constant s (rc w)))
  operate op_mulvk s w =
      some (binary s (ra w) (λ x y. number (M.times x y)) (register s (rb w)) (constant s (rc w)))
  operate op_divvk s w =
      some (binary s (ra w) (λ x y. number (M.divided x y)) (register s (rb w)) (constant s (rc w)))
  operate op_modvk s w =
      some (binary s (ra w) (λ x y. number (M.fmod x y)) (register s (rb w)) (constant s (rc w)))
  operate _ s w = none

  -- Jumps and tests, and `OP_MOV`.
  unfoldable pub go : ByteCode → Running N.Double → ℕ → Option (Outcome N.Double)
  go op_jump s w = some (continues (jumped s w))
  go op_copy_jump_if_false s w =
      let s' = assign s (ra w) (register s (rd w)) in
      some (continues (branch s' (is_falsey is_empty (register s' (rd w)))))
  go op_jump_if_false s w = some (continues (branch s (is_falsey is_empty (register s (rd w)))))
  go op_copy_jump_if_true s w =
      let s' = assign s (ra w) (register s (rd w)) in
      some (continues (branch s' (not (is_falsey is_empty (register s' (rd w))))))
  go op_jump_if_true s w =
      some (continues (branch s (not (is_falsey is_empty (register s (rd w))))))
  go op_mov s w = some (continues (assign s (ra w) (moved s (rd w))))
  go _ s w = none

  -- The bounds of a `try` block. `OP_BEGIN_TRY` does not check that the array has a place left.
  unfoldable pub handle : ByteCode → Running N.Double → ℕ → Option (Outcome N.Double)
  handle op_begin_try s w = some (
      if ltb (length s.tries) try_max
      then continues (record s { tries = (s.ip + rd w - jump_bias, ra w) ∷ s.tries })
      else overflows s)
  handle op_end_try s w = some (elim s.tries [
    | [] ↦ elsewhere s
    | _ ∷ rest ↦ continues (record (jumped s w) { tries = rest })
  ])
  handle _ s w = none

  unfoldable pub execute : ByteCode → Running N.Double → ℕ → Outcome N.Double
  unfolding load operate go handle
  execute op s w =
      or_else (load op s w)
        (or_else (operate op s w) (or_else (go op s w) (or_else (handle op s w) (elsewhere s))))

  -- A round of the loop of `run`.
  unfoldable pub step : Running N.Double → Outcome N.Double
  unfolding execute
  step s =
      let w = get_or s.code s.ip 0 in
      let s' : Running N.Double = record s { ip = s.ip + 1 } in
      elim (of_code (opcode w)) [ none ↦ elsewhere s' | some op ↦ execute op s' w ]

-- `exception_unwind`, with the exception; `none` ends the program.
unfoldable pub unwind : {D : Type 0} → Running D → Value D → Option (Running D)
unwind s exception = elim s.tries [
  | [] ↦ none
  | t ∷ rest ↦ some (record (assign s t.1 exception) { ip = t.0; tries = rest })
]
