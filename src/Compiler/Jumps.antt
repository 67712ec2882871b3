-- ===== src/Compiler/Jumps.antt =====
-- What a patched jump is read back as.
use xan.Base.{
  ℕ, ◌+◌, ◌^◌, ◌<◌, ◌≤◌, ◌≡◌, ◌≢◌, refl, arith, false, List, some, get_or, set, length, length-set,
  get_or-set,
}
use xan.Bytecode.{Endian, jump_bias, no_jump, rjump, setbc_d, opcode, ra, op_ajump}
use xan.Bytecode.Fields.{op_ajump_fields}
use xan.Bytecode.Patch.{setbc_d-fields}
use xan.Compiler.{jump_next, jump_offset, jump_patch_instruction}

-- The distance from `src` to `dest` fits the field of a jump, and `dest` is not `src`, whose distance
-- means that there is no target.
pub record Reaches (src dest : ℕ) : Type 0 where
  pub source_fits : src < 2 ^ 31
  pub target_fits : dest < 2 ^ 31
  pub not_far_back : src + 1 ≤ dest + jump_bias
  pub not_far_on : dest ≤ src + jump_bias
  pub other : src ≢ dest

module _ (e : Endian) (code : List ℕ) (src dest : ℕ) (inside : src < length code)
    (near : Reaches src dest) where
  offset_lem : jump_offset src dest + (src + 1) ≡ dest + jump_bias
  offset_lem = omega (arith, near.source_fits, near.target_fits, near.not_far_back, near.not_far_on)

  abbrev pub patched : List ℕ
  patched = set code src (setbc_d e (get_or code src 0) (jump_offset src dest))

  patched_there : jump_next patched src ≡ dest
  unfolding jump_next rjump
  patched_there =
      let (_, _, field) =
        setbc_d-fields e (get_or code src 0) (jump_offset src dest)
          (omega (arith, offset_lem, near.not_far_on)) in
      let here =
        get_or-set code src src (setbc_d e (get_or code src 0) (jump_offset src dest)) 0 inside in
      ground (arith, field, here, offset_lem, near.source_fits, near.target_fits, near.other)

  patched_elsewhere : (pc : ℕ) → src ≢ pc → get_or patched pc 0 ≡ get_or code pc 0
  patched_elsewhere pc apart = ground (
    arith,
    get_or-set code src pc (setbc_d e (get_or code src 0) (jump_offset src dest)) 0 inside,
  )

  -- `jump_patch_instruction` of a jump in the code to a target in reach reports no error. The jump is
  -- read back as one to the target and keeps its opcode and register; no other instruction changes.
  pub jump_patch_instruction_lem :
      (code' : List ℕ) × (jump_patch_instruction e code src dest ≡ some (false, code'))
      × (jump_next code' src ≡ dest)
      × (opcode (get_or code' src 0) ≡ opcode (get_or code src 0))
      × (ra (get_or code' src 0) ≡ ra (get_or code src 0))
      × (length code' ≡ length code)
      × ((pc : ℕ) → src ≢ pc → get_or code' pc 0 ≡ get_or code pc 0)
  unfolding jump_patch_instruction
  jump_patch_instruction_lem =
      let x = setbc_d e (get_or code src 0) (jump_offset src dest) in
      let (op, reg, _) =
        setbc_d-fields e (get_or code src 0) (jump_offset src dest)
          (omega (arith, offset_lem, near.not_far_on)) in
      let here : get_or patched src 0 ≡ x = ground (arith, get_or-set code src src x 0 inside) in
      (
        patched,
        ground (arith, offset_lem, near.target_fits, near.not_far_on),
        patched_there,
        rw here op,
        rw here reg,
        length-set code src x,
        patched_elsewhere,
      )

-- A jump that is emitted without a target, with an opcode and a register that fit a byte, ends its
-- list.
pub jump_next-op_ajump :
    (code : List ℕ) (pc o a : ℕ)
    → o < 256
    → a < 256
    → get_or code pc 0 ≡ op_ajump o a 0xffff
    → jump_next code pc ≡ no_jump
unfolding jump_next
jump_next-op_ajump code pc o a ho ha e =
    let (_, _, j) = op_ajump_fields o a 0xffff ho ha (omega arith) in rw (e, j) refl
