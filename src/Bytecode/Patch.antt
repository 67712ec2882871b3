-- ===== src/Bytecode/Patch.antt =====
-- src/chunk.h: in-place writes of one field of an instruction, on either byte order.
use xan.Base.{ℕ, ◌^◌, ◌<◌, ◌≡◌, arith}
use xan.Bytecode.{
  Endian, little_endian, big_endian, opcode, ra, rb, rc, rd, setbc_op, setbc_a, setbc_b, setbc_c,
  setbc_d,
}
use xan.Bytecode.Fields.{opcode_lem, ra_lem, rb_lem, rc_lem, rd_lem}

-- The four byte fields of the word `w`.
pub record HasFields (w o a b c : ℕ) : Type 0 where
  pub opcode_is : opcode w ≡ o
  pub ra_is : ra w ≡ a
  pub rb_is : rb w ≡ b
  pub rc_is : rc w ≡ c

ruleset fields = (arith, opcode_lem, ra_lem, rb_lem, rc_lem)

module _ (w x : ℕ) (fits : x < 256) where
  setbc_op-HasFields : (e : Endian) → HasFields (setbc_op e w x) x (ra w) (rb w) (rc w)
  unfolding setbc_op
  setbc_op-HasFields little_endian = omega fields
  setbc_op-HasFields big_endian = omega fields

  setbc_a-HasFields : (e : Endian) → HasFields (setbc_a e w x) (opcode w) x (rb w) (rc w)
  unfolding setbc_a
  setbc_a-HasFields little_endian = omega fields
  setbc_a-HasFields big_endian = omega fields

  setbc_b-HasFields : (e : Endian) → HasFields (setbc_b e w x) (opcode w) (ra w) x (rc w)
  unfolding setbc_b
  setbc_b-HasFields little_endian = omega fields
  setbc_b-HasFields big_endian = omega fields

  setbc_c-HasFields : (e : Endian) → HasFields (setbc_c e w x) (opcode w) (ra w) (rb w) x
  unfolding setbc_c
  setbc_c-HasFields little_endian = omega fields
  setbc_c-HasFields big_endian = omega fields

-- On either byte order a write of a byte that fits replaces its own field of the instruction and
-- leaves the three others.
pub setbc-HasFields :
    (e : Endian) (w x : ℕ)
    → x < 256
    → HasFields (setbc_op e w x) x (ra w) (rb w) (rc w)
      × HasFields (setbc_a e w x) (opcode w) x (rb w) (rc w)
      × HasFields (setbc_b e w x) (opcode w) (ra w) x (rc w)
      × HasFields (setbc_c e w x) (opcode w) (ra w) (rb w) x
setbc-HasFields e w x h = (
  setbc_op-HasFields w x h e,
  setbc_a-HasFields w x h e,
  setbc_b-HasFields w x h e,
  setbc_c-HasFields w x h e,
)

-- On either byte order a write of the 16-bit operand replaces it and leaves opcode and register.
pub setbc_d-fields :
    (e : Endian) (w x : ℕ)
    → x < 2 ^ 16
    → (opcode (setbc_d e w x) ≡ opcode w) × (ra (setbc_d e w x) ≡ ra w) × (rd (setbc_d e w x) ≡ x)
unfolding setbc_d
setbc_d-fields little_endian w x h = omega (arith, opcode_lem, ra_lem, rd_lem)
setbc_d-fields big_endian w x h = omega (arith, opcode_lem, ra_lem, rd_lem)
