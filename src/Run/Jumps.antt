-- ===== src/Run/Jumps.antt =====
-- src/vm.c, `run`: the jumps go where the jump lists of src/parse.c say.
use xan.Base.{
  ℕ, ◌+◌, ◌-◌, ◌^◌, ◌<◌, ◌≡◌, refl, ap, ◌∙◌, arith, Bool, true, false, not, List, some,
  if◌then◌else◌, get_or, length,
}
use xan.Bytecode.{Endian, opcode, ra, rd, rjump, jump_bias}
use xan.Bytecode.Opcode.{
  ByteCode, of_code, op_jump, op_copy_jump_if_false, op_copy_jump_if_true, op_jump_if_false,
  op_jump_if_true,
}
use xan.Value.{Number}
use xan.Compiler.{jump_next, jump_patch_instruction}
use xan.Compiler.Jumps.{Reaches, jump_patch_instruction_lem}
use xan.Run.{Arithmetic, Running, continues, register, assign, is_falsey, branch, execute, step}

-- The distance in a jump that has a target.
pub distance_lem :
    (code : List ℕ) (pc dest : ℕ)
    → pc < 2 ^ 31
    → dest < 2 ^ 31
    → jump_next code pc ≡ dest
    → pc + 1 + rd (get_or code pc 0) - jump_bias ≡ dest
unfolding jump_next rjump
distance_lem code pc dest source_fits target_fits next =
    let small : rd (get_or code pc 0) < 2 ^ 16 = unfold rd in omega arith in
    ground (arith, next, small, source_fits, target_fits)

-- The instructions that test a register: whether they copy it, and whether they jump if it is true.
pub data IsTest : ByteCode → Bool → Bool → Type 0 where
  copy_if_false : IsTest op_copy_jump_if_false true false
  copy_if_true : IsTest op_copy_jump_if_true true true
  if_false : IsTest op_jump_if_false false false
  if_true : IsTest op_jump_if_true false true

module _ (N : Number) (M : Arithmetic N.Double) (is_string is_empty : ℕ → Bool) where
  pub step_lem :
      (s : Running N.Double) (op : ByteCode)
      → of_code (opcode (get_or s.code s.ip 0)) ≡ some op
      → step N M is_string is_empty s
        ≡ execute N M is_string is_empty op (record s { ip = s.ip + 1 }) (get_or s.code s.ip 0)
  unfolding step
  step_lem s op is = rw (step, is) refl

  -- A jump goes to the next position of its list.
  step-jump_next :
      (s : Running N.Double) (dest : ℕ)
      → of_code (opcode (get_or s.code s.ip 0)) ≡ some op_jump
      → s.ip < 2 ^ 31
      → dest < 2 ^ 31
      → jump_next s.code s.ip ≡ dest
      → step N M is_string is_empty s ≡ continues (record s { ip = dest })
  step-jump_next s dest is source_fits target_fits next =
      let there = distance_lem s.code s.ip dest source_fits target_fits next in
      step_lem s op_jump is ∙ unfold execute in rw there refl

  -- A jump that `jump_patch_instruction` has given a target in reach goes to that target.
  pub step-jump_patch_instruction :
      (s : Running N.Double) (e : Endian) (dest : ℕ)
      → of_code (opcode (get_or s.code s.ip 0)) ≡ some op_jump
      → s.ip < length s.code
      → Reaches s.ip dest
      → (code' : List ℕ) × (jump_patch_instruction e s.code s.ip dest ≡ some (false, code'))
        × (step N M is_string is_empty (record s { code = code' })
            ≡ continues (record s { code = code'; ip = dest }))
  step-jump_patch_instruction s e dest is inside near =
      let (code', run, next, op_same, _, _, _) =
        jump_patch_instruction_lem e s.code s.ip dest inside near in
      (
        code',
        run,
        step-jump_next (record s { code = code' }) dest (ap of_code op_same ∙ is) near.source_fits
            near.target_fits next,
      )

  -- The state behind a test, with the register that it copies, and whether the jump is taken.
  abbrev pub tested : Running N.Double → Bool → ℕ → Running N.Double
  tested s copies w = if copies then assign s (ra w) (register s (rd w)) else s

  abbrev pub is_taken : Running N.Double → Bool → ℕ → Bool
  is_taken s wants w =
      if wants
      then not (is_falsey is_empty (register s (rd w)))
      else is_falsey is_empty (register s (rd w))

  branch_lem :
      (s : Running N.Double) (dest : ℕ) (taken : Bool)
      → s.ip < 2 ^ 31
      → dest < 2 ^ 31
      → jump_next s.code s.ip ≡ dest
      → branch s taken ≡ record s { ip = if taken then dest else s.ip + 1 }
  branch_lem s dest true source_fits target_fits next =
      rw (distance_lem s.code s.ip dest source_fits target_fits next) refl
  branch_lem s dest false source_fits target_fits next = refl

  -- A test of a register, in front of a jump with a target: it copies the register if it is one that copies, and
  -- goes to the target if the register is true or false as the test wants, and else behind the jump.
  pub step-IsTest :
      (s : Running N.Double) (op : ByteCode) (copies wants : Bool) (dest : ℕ)
      → IsTest op copies wants
      → of_code (opcode (get_or s.code s.ip 0)) ≡ some op
      → s.ip + 1 < 2 ^ 31
      → dest < 2 ^ 31
      → jump_next s.code (s.ip + 1) ≡ dest
      → step N M is_string is_empty s
        ≡ continues (record (tested s copies (get_or s.code s.ip 0)) {
          ip =
              if is_taken (tested s copies (get_or s.code s.ip 0)) wants (get_or s.code s.ip 0)
              then dest
              else s.ip + 1 + 1;
        })
  unfolding execute
  step-IsTest s _ _ _ dest copy_if_false is source_fits target_fits next =
      step_lem s op_copy_jump_if_false is
      ∙ ap continues (
          branch_lem (record (tested s true (get_or s.code s.ip 0)) { ip = s.ip + 1 }) dest _
            source_fits target_fits next)
  step-IsTest s _ _ _ dest copy_if_true is source_fits target_fits next =
      step_lem s op_copy_jump_if_true is
      ∙ ap continues (
          branch_lem (record (tested s true (get_or s.code s.ip 0)) { ip = s.ip + 1 }) dest _
            source_fits target_fits next)
  step-IsTest s _ _ _ dest if_false is source_fits target_fits next =
      step_lem s op_jump_if_false is
      ∙ ap continues (branch_lem (record s { ip = s.ip + 1 }) dest _ source_fits target_fits next)
  step-IsTest s _ _ _ dest if_true is source_fits target_fits next =
      step_lem s op_jump_if_true is
      ∙ ap continues (branch_lem (record s { ip = s.ip + 1 }) dest _ source_fits target_fits next)
