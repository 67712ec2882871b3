-- ===== src/Bytecode/Fields.antt =====
-- src/chunk.h: what the field macros take out of a packed instruction.
use xan.Base.{ℕ, ◌+◌, ◌-◌, ◌*◌, ◌/◌, ◌%◌, ◌^◌, ◌<◌, ◌≡◌, arith, ltb, if◌then◌else◌}
use xan.Base.Bits.{bit_or_disjoint, bit_and_mask}
use xan.Bytecode.{op_a, op_ad, op_abc, op_ajump, opcode, ra, rb, rc, rd, rjump, u32}

pub opcode_lem : (x : ℕ) → opcode x ≡ x % 256
unfolding opcode
opcode_lem x = omega (arith, bit_and_mask 8 (u32 x))

pub ra_lem : (x : ℕ) → ra x ≡ x / 256 % 256
unfolding ra
ra_lem x = omega (arith, bit_and_mask 16 (u32 x))

pub rd_lem : (x : ℕ) → rd x ≡ x / 65536 % 65536
unfolding rd
rd_lem x = omega arith

pub rb_lem : (x : ℕ) → rb x ≡ x / 65536 % 256
unfolding rb
rb_lem x = omega (arith, bit_and_mask 8 (rd x))

pub rc_lem : (x : ℕ) → rc x ≡ x / 16777216 % 256
unfolding rc
rc_lem x = omega arith

pub op_a_lem : (o a : ℕ) → o < 256 → a < 256 → op_a o a ≡ o + a * 256
unfolding op_a
op_a_lem o a ho ha = ground (arith, bit_or_disjoint 8 o a)

op_ad_lem : (o a d : ℕ) → o < 256 → a < 256 → d < 2 ^ 16 → op_ad o a d ≡ o + a * 256 + d * 65536
unfolding op_ad
op_ad_lem o a d ho ha hd = ground (arith, op_a_lem o a, bit_or_disjoint 16 (o + a * 256) d)

op_ad_wide : (o a d : ℕ) → o < 256 → a < 256 → op_ad o a d ≡ o + a * 256 + d % 65536 * 65536
unfolding op_ad
op_ad_wide o a d ho ha = ground (arith, op_a_lem o a, bit_or_disjoint 16 (o + a * 256) (d % 65536))

-- Operands that fit a byte come out of `OP_ABC` as they went in, and the two upper operands read
-- as one 16-bit field are `b + 256 * c`.
pub op_abc_fields :
    (o a b c : ℕ)
    → o < 256
    → a < 256
    → b < 256
    → c < 256
    → (opcode (op_abc o a b c) ≡ o)
      × (ra (op_abc o a b c) ≡ a)
      × (rb (op_abc o a b c) ≡ b)
      × (rc (op_abc o a b c) ≡ c)
      × (rd (op_abc o a b c) ≡ b + 256 * c)
op_abc_fields o a b c ho ha hb hc =
    let e = op_abc_lem o a b c ho ha hb hc in
    rw (opcode_lem, ra_lem, rb_lem, rc_lem, rd_lem, e) (omega arith)
  where
    op_abc_lem :
        (o a b c : ℕ)
        → o < 256
        → a < 256
        → b < 256
        → c < 256
        → op_abc o a b c ≡ o + a * 256 + (b + c * 256) * 65536
    op_abc_lem o a b c ho ha hb hc =
        unfold op_abc in ground (arith, bit_or_disjoint 8 b c, op_ad_lem o a (b + c * 256))

-- An opcode and register that fit a byte and a 16-bit operand come out of `OP_AD` as they went in.
pub op_ad_fields :
    (o a d : ℕ)
    → o < 256
    → a < 256
    → d < 2 ^ 16
    → (opcode (op_ad o a d) ≡ o) × (ra (op_ad o a d) ≡ a) × (rd (op_ad o a d) ≡ d)
op_ad_fields o a d ho ha hd =
    rw (opcode_lem, ra_lem, rd_lem, op_ad_lem o a d ho ha hd) (omega arith)

-- The distance of a packed jump is read back sign-extended from 16 to 32 bits, so `0xffff`, which
-- `emit_jump` passes for `NO_JUMP`, is read back as `NO_JUMP`. The opcode and register survive.
pub op_ajump_fields :
    (o a j : ℕ)
    → o < 256
    → a < 256
    → j < 2 ^ 16
    → (opcode (op_ajump o a j) ≡ o)
      × (ra (op_ajump o a j) ≡ a)
      × (rjump (op_ajump o a j) ≡ (if ltb j (2 ^ 15) then j else j + (2 ^ 32 - 2 ^ 16)))
unfolding op_ajump rjump
op_ajump_fields o a j ho ha hj =
    rw (opcode_lem, ra_lem, rd_lem, op_ad_wide o a (u32 (j + 0x8000)) ho ha)
      (omega arith, omega arith, ground arith)
