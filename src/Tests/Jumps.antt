-- ===== src/Tests/Jumps.antt =====
-- Jump lists of src/parse.c on a code of three instructions, two of them jumps without a target.
use xan.Base.{IsFresh, ℕ, ◌≡◌, ◌≢◌, refl, arith, false, List, [], ◌∷◌, some, get_or, length}
use xan.Bytecode.{no_reg, little_endian, no_jump, opcode, ra, rd, rjump, op_ajump}
use xan.Compiler.Emit.{emit_bytecode-AllJump}
use xan.Compiler.{
  Compiler, emit_bytecode, jump_patch_value, jump_next, jump_patch_instruction, jump_append,
}
use xan.Compiler.Jumps.{Reaches, jump_patch_instruction_lem, jump_next-op_ajump}
use xan.Compiler.Resolve.{spots, AllJump, jump_patch_value-AllJump}
use xan.Compiler.Lists.{IsChain, final, jump_append-IsChain}

abbrev open_jumps : List ℕ
open_jumps = 0x7fff0022 ∷ 29 ∷ 0x7fff0022 ∷ []

two-Reaches-zero : Reaches 2 0
two-Reaches-zero = record {
  source_fits = omega arith;
  target_fits = omega arith;
  not_far_back = omega arith;
  not_far_on = omega arith;
  other = λ e. omega arith;
}

jump_patch_instruction_lem_example :
    (code : List ℕ) × (jump_patch_instruction little_endian open_jumps 2 0 ≡ some (false, code))
    × (jump_next code 2 ≡ 0)
    × (opcode (get_or code 2 0) ≡ opcode 0x7fff0022)
    × (ra (get_or code 2 0) ≡ ra 0x7fff0022)
    × (length code ≡ 3)
    × ((pc : ℕ) → 2 ≢ pc → get_or code pc 0 ≡ get_or open_jumps pc 0)
jump_patch_instruction_lem_example =
    jump_patch_instruction_lem little_endian open_jumps 2 0 (omega arith) two-Reaches-zero

jump_next-op_ajump_example : jump_next (op_ajump 34 3 0xffff ∷ []) 0 ≡ no_jump
jump_next-op_ajump_example =
    jump_next-op_ajump (op_ajump 34 3 0xffff ∷ []) 0 34 3 (omega arith) (omega arith) refl

zero-IsChain : IsChain open_jumps 0 (0 ∷ [])
unfolding jump_next rjump rd
zero-IsChain = (refl, omega arith, omega arith, refl)

two-IsChain : IsChain open_jumps 2 (2 ∷ [])
unfolding jump_next rjump rd
two-IsChain = (refl, omega arith, omega arith, refl)

jump_append-IsChain_example :
    (list : ℕ) × ((code : List ℕ) × (jump_append little_endian 3 open_jumps 2 0
        ≡ some (list, false, code))
      × IsChain code list (2 ∷ 0 ∷ [])
      × (length code ≡ 3))
jump_append-IsChain_example =
    jump_append-IsChain little_endian 3 open_jumps 2 0 (2 ∷ []) (0 ∷ []) two-IsChain zero-IsChain
      (((λ e. omega arith), tt), (tt, tt)) reaches (omega arith)
  where
    reaches :
        (x y : ℕ) (xs ys : List ℕ) → 2 ∷ [] ≡ x ∷ xs → 0 ∷ [] ≡ y ∷ ys → Reaches (final x xs) y
    reaches x y xs ys p q =
        let ex : x ≡ 2 = cc in
        let exs : xs ≡ [] = cc in let ey : y ≡ 0 = cc in rw (ex, exs, ey) two-Reaches-zero

jump_patch_value-AllJump_example :
    (code : List ℕ) × (jump_patch_value little_endian 3 open_jumps 2 0 no_reg 0
      ≡ some (false, code))
    × AllJump code (2 ∷ []) 0
    × (length code ≡ 3)
    × ((pc : ℕ) → IsFresh pc (spots (2 ∷ [])) → get_or code pc 0 ≡ get_or open_jumps pc 0)
jump_patch_value-AllJump_example =
    jump_patch_value-AllJump little_endian 3 open_jumps 2 0 (2 ∷ []) two-IsChain
      (((λ e. omega arith), tt), (tt, tt)) (two-Reaches-zero, tt) (omega arith)

abbrev waiting : Compiler
waiting = record {
  code = 29 ∷ 0x7fff0022 ∷ [];
  lines = 1 ∷ 1 ∷ [];
  pending_jump_list = 1;
  last_target = 0;
}

waiting-IsChain : IsChain waiting.code 1 (1 ∷ [])
unfolding jump_next rjump rd
waiting-IsChain = (refl, omega arith, omega arith, refl)

one-Reaches-two : Reaches 1 2
one-Reaches-two = record {
  source_fits = omega arith;
  target_fits = omega arith;
  not_far_back = omega arith;
  not_far_on = omega arith;
  other = λ e. omega arith;
}

two-Reaches-one : Reaches 2 1
two-Reaches-one = record {
  source_fits = omega arith;
  target_fits = omega arith;
  not_far_back = omega arith;
  not_far_on = omega arith;
  other = λ e. omega arith;
}

emit_bytecode-AllJump_example :
    (c : Compiler) × (emit_bytecode little_endian 2 waiting 29 7 ≡ some (2, false, c))
    × (get_or c.code 2 0 ≡ 29)
    × (length c.code ≡ 3)
    × (c.lines ≡ 1 ∷ 1 ∷ 7 ∷ [])
    × AllJump c.code (1 ∷ []) 2
    × IsChain c.code c.pending_jump_list []
emit_bytecode-AllJump_example =
    emit_bytecode-AllJump little_endian 2 waiting 29 7 (1 ∷ []) waiting-IsChain
      (((λ e. omega arith), tt), (tt, tt)) (one-Reaches-two, tt) (omega arith)
