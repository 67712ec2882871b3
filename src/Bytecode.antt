-- ===== src/Bytecode.antt =====
-- src/chunk.h: the opcodes, the macros that pack fields into a 32-bit instruction and take them
-- out, and the in-place writes of one field.
pub mod Opcode
pub mod Fields
pub mod Patch
use xan.Base.{
  ℕ, ◌+◌, ◌-◌, ◌*◌, ◌/◌, ◌%◌, ◌^◌, bit_and, bit_or, List, [], ◌∷◌, set, get_or, if◌then◌else◌, ltb,
}

-- `MAX_REG`, `MAX_D`, `JUMP_BIAS`, `NO_REG` and `NO_JUMP`.
abbrev pub max_reg : ℕ
max_reg = 0xff

abbrev pub max_d : ℕ
max_d = 0xffff

abbrev pub jump_bias : ℕ
jump_bias = 0x8000

abbrev pub no_reg : ℕ
no_reg = max_reg

abbrev pub no_jump : ℕ
no_jump = 2 ^ 32 - 1

-- A conversion to `uint32_t`, `uint16_t` or `uint8_t`.
abbrev pub u32 : ℕ → ℕ
u32 n = n % 2 ^ 32

abbrev pub u16 : ℕ → ℕ
u16 n = n % 2 ^ 16

abbrev pub u8 : ℕ → ℕ
u8 n = n % 2 ^ 8

-- `x << k` on a `uint32_t`.
abbrev pub shl32 : ℕ → ℕ → ℕ
shl32 x k = u32 (u32 x * 2 ^ k)

unfoldable pub op_a : ℕ → ℕ → ℕ
op_a o a = bit_or (u32 o) (shl32 a 8)

unfoldable pub op_d : ℕ → ℕ → ℕ
op_d o d = bit_or (u32 o) (shl32 d 16)

unfoldable pub op_ad : ℕ → ℕ → ℕ → ℕ
unfolding op_a
op_ad o a d = bit_or (op_a o a) (shl32 d 16)

unfoldable pub op_abc : ℕ → ℕ → ℕ → ℕ → ℕ
unfolding op_ad
op_abc o a b c = op_ad o a (bit_or (u16 b) (u16 c * 2 ^ 8))

-- The jump distance `j` is a `uint16_t` at every call.
unfoldable pub op_ajump : ℕ → ℕ → ℕ → ℕ
unfolding op_ad
op_ajump o a j = op_ad o a (u32 (j + jump_bias))

unfoldable pub opcode : ℕ → ℕ
opcode x = u8 (bit_and (u32 x) max_reg)

unfoldable pub ra : ℕ → ℕ
ra x = u8 (u16 (bit_and (u32 x) max_d) / 2 ^ 8)

unfoldable pub rd : ℕ → ℕ
rd x = u16 (x / 2 ^ 16)

unfoldable pub rb : ℕ → ℕ
unfolding rd
rb x = u8 (bit_and (rd x) max_reg)

unfoldable pub rc : ℕ → ℕ
unfolding rd
rc x = u8 (rd x / 2 ^ 8)

-- `RJump(x)` converted to an `OP_position`: the distance modulo 2 ^ 32.
unfoldable pub rjump : ℕ → ℕ
unfolding rd
rjump x = u32 (rd x + (2 ^ 32 - jump_bias))

-- `ENDIAN` of src/arch.h.
pub data Endian : Type 0 where
  little_endian big_endian : Endian

-- `ENDIAN_SELECT(le, be)`.
abbrev pub endian_select {ℓ} : {A : Type ℓ} → Endian → A → A → A
endian_select little_endian le be = le
endian_select big_endian le be = be

byte : ℕ → ℕ → ℕ
byte w i = w / 2 ^ (8 * i) % 256

-- The four bytes of a `uint32_t` in the order of their addresses, and the word that four bytes are.
bytes_of : Endian → ℕ → List ℕ
unfolding byte
bytes_of e w =
    endian_select e (byte w 0 ∷ byte w 1 ∷ byte w 2 ∷ byte w 3 ∷ [])
      (byte w 3 ∷ byte w 2 ∷ byte w 1 ∷ byte w 0 ∷ [])

of_bytes : Endian → List ℕ → ℕ
of_bytes e m =
    let i = λ (k : ℕ). get_or m (endian_select e k (3 - k)) 0 in
    i 0 + 2 ^ 8 * i 1 + 2 ^ 16 * i 2 + 2 ^ 24 * i 3

-- `((uint8_t*)(p))[ENDIAN_SELECT(ofs, 3-ofs)] = x` on the word at `p`.
unfoldable pub setbc : Endian → ℕ → ℕ → ℕ → ℕ
unfolding bytes_of of_bytes
setbc e w x ofs = of_bytes e (set (bytes_of e w) (endian_select e ofs (3 - ofs)) (u8 x))

-- The same with the two `uint16_t` halves.
halves_of : Endian → ℕ → List ℕ
halves_of e w =
    endian_select e (w % 2 ^ 16 ∷ u16 (w / 2 ^ 16) ∷ []) (u16 (w / 2 ^ 16) ∷ w % 2 ^ 16 ∷ [])

of_halves : Endian → List ℕ → ℕ
of_halves e m = let i = λ (k : ℕ). get_or m (endian_select e k (1 - k)) 0 in i 0 + 2 ^ 16 * i 1

unfoldable pub setbc_d : Endian → ℕ → ℕ → ℕ
unfolding halves_of of_halves
setbc_d e w x = of_halves e (set (halves_of e w) (endian_select e 1 0) (u16 x))

unfoldable pub setbc_op : Endian → ℕ → ℕ → ℕ
unfolding setbc
setbc_op e w x = setbc e w x 0

unfoldable pub setbc_a : Endian → ℕ → ℕ → ℕ
unfolding setbc
setbc_a e w x = setbc e w x 1

unfoldable pub setbc_b : Endian → ℕ → ℕ → ℕ
unfolding setbc
setbc_b e w x = setbc e w x 2

unfoldable pub setbc_c : Endian → ℕ → ℕ → ℕ
unfolding setbc
setbc_c e w x = setbc e w x 3
