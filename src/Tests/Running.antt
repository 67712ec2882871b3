-- ===== src/Tests/Running.antt =====
-- The loop `run` of src/vm.c on a short code.
use xan.Base.{
  ℕ, ◌+◌, ◌-◌, ◌*◌, ◌/◌, ◌%◌, ◌≡◌, refl, arith, Bool, false, List, [], ◌∷◌, some, ltb, leb,
  if◌then◌else◌,
}
use xan.Bytecode.{little_endian, opcode, ra, rd, rjump}
use xan.Bytecode.Opcode.{of_code, op_jump_if_false}
use xan.Value.{nil, bool, number}
use xan.Compiler.{jump_next, jump_patch_instruction}
use xan.Run.{Arithmetic, Running, continues, assign, step, unwind}
use xan.Run.Jumps.{if_false, is_taken, step-jump_patch_instruction, step-IsTest}
use xan.Run.Handlers.{unwind-step}
use xan.Tests.{whole_numbers}

abbrev pub naturals : Arithmetic ℕ
naturals = record {
  negated = λ x. x;
  plus = λ x y. x + y;
  minus = λ x y. x - y;
  times = λ x y. x * y;
  divided = λ x y. x / y;
  fmod = λ x y. x % y;
  less = ltb;
  at_most = leb;
}

abbrev pub no_object : ℕ → Bool
no_object p = false

-- A jump without a target, a test of the register 1, a jump to the position 6, and a handler at 9.
abbrev short_code : List ℕ
short_code = 0x7fff0018 ∷ 0x0001001b ∷ 0x80030018 ∷ 0x80050231 ∷ 0 ∷ 0 ∷ []

abbrev at : ℕ → Running ℕ
at ip = record {
  code = short_code;
  constants = [];
  ip = ip;
  self = nil;
  registers = number 4 ∷ bool false ∷ nil ∷ [];
  tries = [];
}

step-jump_patch_instruction_example :
    (code' : List ℕ) × (jump_patch_instruction little_endian short_code 0 5 ≡ some (false, code'))
    × (step whole_numbers naturals no_object no_object (record (at 0) { code = code' })
        ≡ continues (record (at 0) { code = code'; ip = 5 }))
step-jump_patch_instruction_example =
    step-jump_patch_instruction whole_numbers naturals no_object no_object (at 0) little_endian 5
      (unfold of_code opcode in refl) (omega arith)
      (record {
        source_fits = omega arith;
        target_fits = omega arith;
        not_far_back = omega arith;
        not_far_on = omega arith;
        other = omega arith;
      })

step-IsTest_example :
    step whole_numbers naturals no_object no_object (at 1)
    ≡ continues (record (at 1) {
      ip =
          if is_taken whole_numbers naturals no_object no_object (at 1) false 0x0001001b
          then 6
          else 3;
    })
step-IsTest_example =
    step-IsTest whole_numbers naturals no_object no_object (at 1) op_jump_if_false false false 6
      if_false (unfold of_code opcode in refl) (omega arith) (omega arith)
      (unfold jump_next rjump in refl)

begin_try_run :
    step whole_numbers naturals no_object no_object (at 3)
    ≡ continues (record (at 3) { ip = 4; tries = (9, 2) ∷ [] })
unfolding step of_code opcode ra rd
begin_try_run = refl

unwind-step_example :
    unwind (record (at 3) { ip = 5; tries = (9, 2) ∷ [] }) (number 1)
    ≡ some (record (assign (record (at 3) { ip = 5 }) (ra 0x80050231) (number 1)) {
      ip = 9;
      tries = [];
    })
unwind-step_example =
    unwind-step whole_numbers naturals no_object no_object (at 3)
      (record (at 3) { ip = 4; tries = (9, 2) ∷ [] })
      (record (at 3) { ip = 5; tries = (9, 2) ∷ [] }) 9 (number 1) (unfold of_code opcode in refl)
      (omega arith) (omega arith) (unfold jump_next rjump in refl) (omega arith) begin_try_run refl
