-- ===== src/Compiler.antt =====
-- src/parse.c: the lists of jumps that wait for their target, which run through the distance fields
-- of the jump instructions themselves, and the emission of instructions. The code of a chunk is the
-- list of its instructions; a position is an `OP_position`, a number below `2 ^ 32`.
pub mod Jumps
pub mod Lists
pub mod Resolve
pub mod Emit
pub mod Scopes
use xan.Base.{
  ◌++◌, ◌||◌, leb, ℕ, zero, suc, ◌+◌, ◌-◌, ◌^◌, Bool, true, false, List, [], ◌∷◌, Option, none,
  some, ◌>>=◌, ltb, ◌==◌, if◌then◌else◌, get_or, set, length,
}
use xan.Bytecode.{
  u16, Endian, u32, max_d, jump_bias, no_jump, no_reg, opcode, ra, rd, setbc_op, setbc_a, rjump,
  setbc_d, op_ajump,
}

unfoldable pub jump_next : List ℕ → ℕ → ℕ
jump_next code pc =
    let delta = rjump (get_or code pc 0) in
    if delta == no_jump then no_jump else u32 (pc + 1 + delta)

-- `dest - (src+1) + JUMP_BIAS` on an `OP_position`.
abbrev pub jump_offset : ℕ → ℕ → ℕ
jump_offset src dest = u32 (dest + (2 ^ 32 - u32 (src + 1)) + jump_bias)

-- Whether an error is reported, and the code. `none` is the failed assertion.
unfoldable pub jump_patch_instruction : Endian → List ℕ → ℕ → ℕ → Option (Bool × List ℕ)
jump_patch_instruction e code src dest =
    let offset = jump_offset src dest in
    if dest == no_jump
    then none
    else some (ltb max_d offset, set code src (setbc_d e (get_or code src 0) offset))

-- The loop of `jump_append`: the last jump of a list.
unfoldable pub list_end : ℕ → List ℕ → ℕ → Option ℕ
unfolding jump_next
list_end zero code list = none
list_end (suc fuel) code list =
    let next = jump_next code list in
    let rest = list_end fuel code next in if next == no_jump then some list else rest

-- The new first list, whether an error is reported, and the code.
unfoldable pub jump_append : Endian → ℕ → List ℕ → ℕ → ℕ → Option (ℕ × Bool × List ℕ)
jump_append e fuel code list1 list2 =
    let joined = (do
      list ← list_end fuel code list1
      r ← jump_patch_instruction e code list list2
      some (list1, r.0, r.1)) in
    if list2 == no_jump
    then some (list1, false, code)
    else if list1 == no_jump
    then some (list2, false, code)
    else joined

-- The numbers of the opcodes `OP_JUMP`, `OP_COPY_JUMP_IF_FALSE` and so on.
abbrev pub code_jump : ℕ
code_jump = 24

abbrev pub code_copy_jump_if_false : ℕ
code_copy_jump_if_false = 25

abbrev pub code_copy_jump_if_true : ℕ
code_copy_jump_if_true = 26

abbrev pub code_jump_if_true : ℕ
code_jump_if_true = 28

-- The instruction in front of a jump, or the jump itself at position 0.
abbrev pub before : ℕ → ℕ
before pc = if leb 1 pc then pc - 1 else pc

-- Whether the jump at `pc` leaves a value in the register `r`, and the code.
unfoldable pub jump_patch_test_reg : Endian → List ℕ → ℕ → ℕ → Bool × List ℕ
jump_patch_test_reg e code pc r =
    let ip = before pc in
    let w = get_or code ip 0 in
    let op = opcode w in
    let plain =
      set code ip
        (setbc_a e (setbc_op e w (op + (code_jump_if_true - code_copy_jump_if_true))) 0) in
    let kept = set code ip (setbc_a e w r) in
    let jump = set code ip (op_ajump code_jump (ra (get_or code pc 0)) 0) in
    let behind = get_or kept (ip + 1) 0 in
    if op == code_copy_jump_if_true || op == code_copy_jump_if_false
    then (true, if r == no_reg || r == rd w then plain else kept)
    else if ra w == no_reg
    then (
      true,
      if r == no_reg
          then jump
          else if leb (ra behind) r
          then set kept (ip + 1) (setbc_a e behind (r + 1))
          else kept,
    )
    else (false, code)

-- The loop of `jump_patch_value`: whether an error is reported, and the code.
unfoldable pub jump_patch_value : Endian → ℕ → List ℕ → ℕ → ℕ → ℕ → ℕ → Option (Bool × List ℕ)
jump_patch_value e zero code list value_target r default_target = none
jump_patch_value e (suc fuel) code list value_target r default_target =
    let next = jump_next code list in
    let tested = jump_patch_test_reg e code list r in
    let patched = (do
      p ← jump_patch_instruction e tested.1 list (if tested.0 then value_target else default_target)
      q ← jump_patch_value e fuel p.1 next value_target r default_target
      some (p.0 || q.0, q.1)) in
    if list == no_jump then some (false, code) else patched

-- What the operations use of `Compiler` and of its chunk: the instructions with their lines, as the
-- lists that `writeChunk` appends to.
pub record Compiler : Type 0 where
  pub code : List ℕ
  pub lines : List ℕ
  pub pending_jump_list : ℕ
  pub last_target : ℕ

-- The position of the instruction, whether an error is reported, and the compiler. `line` is the
-- line of the previous token.
unfoldable pub emit_bytecode : Endian → ℕ → Compiler → ℕ → ℕ → Option (ℕ × Bool × Compiler)
emit_bytecode e fuel c bc line =
    let count = length c.code in
    do
      r ← jump_patch_value e fuel c.code c.pending_jump_list count no_reg count
      some (
        count,
        r.0,
        record c {
          code = r.1 ++ bc ∷ [];
          lines = c.lines ++ line ∷ [];
          pending_jump_list = no_jump;
        },
      )

unfoldable pub emit_jump_on : Endian → ℕ → Compiler → ℕ → ℕ → ℕ → Option (ℕ × Bool × Compiler)
emit_jump_on e fuel c op a line =
    let pjl = c.pending_jump_list in
    do
      j ←
          emit_bytecode e fuel (record c { pending_jump_list = no_jump })
            (op_ajump op a (u16 no_jump)) line
      l ← jump_append e fuel j.2.code j.0 pjl
      some (l.0, j.1 || l.1, record j.2 { code = l.2 })

unfoldable pub jump_to_here : Endian → ℕ → Compiler → ℕ → Option (Bool × Compiler)
jump_to_here e fuel c list = do
  l ← jump_append e fuel c.code c.pending_jump_list list
  some (l.1, record c { last_target = length c.code; pending_jump_list = l.0; code = l.2 })
