-- ===== src/Tests/Instructions.antt =====
-- src/chunk.h and src/memory.h at concrete numbers.
use xan.Base.{ℕ, ◌+◌, ◌-◌, ◌*◌, ◌^◌, ◌<◌, ◌≤◌, ◌≡◌, ◌⊎◌, arith, ltb, if◌then◌else◌}
use xan.Bytecode.{
  big_endian, op_ad, op_ajump, opcode, ra, rb, rc, rd, rjump, setbc_op, setbc_a, setbc_b, setbc_c,
  setbc_d,
}
use xan.Bytecode.Fields.{op_ad_fields, op_ajump_fields}
use xan.Bytecode.Patch.{HasFields, setbc-HasFields, setbc_d-fields}
use xan.Memory.{round_up_pow_2, grow_capacity}
use xan.Memory.RoundUp.{round_up_pow_2-least, grow_capacity_grows}

op_ad_fields_example :
    (opcode (op_ad 7 1 65535) ≡ 7) × (ra (op_ad 7 1 65535) ≡ 1) × (rd (op_ad 7 1 65535) ≡ 65535)
op_ad_fields_example = op_ad_fields 7 1 65535 (omega arith) (omega arith) (omega arith)

op_ajump_fields_example :
    (opcode (op_ajump 7 1 65535) ≡ 7)
    × (ra (op_ajump 7 1 65535) ≡ 1)
    × (rjump (op_ajump 7 1 65535)
        ≡ (if ltb 65535 (2 ^ 15) then 65535 else 65535 + (2 ^ 32 - 2 ^ 16)))
op_ajump_fields_example = op_ajump_fields 7 1 65535 (omega arith) (omega arith) (omega arith)

setbc-HasFields_example :
    HasFields (setbc_op big_endian 1000 9) 9 (ra 1000) (rb 1000) (rc 1000)
    × HasFields (setbc_a big_endian 1000 9) (opcode 1000) 9 (rb 1000) (rc 1000)
    × HasFields (setbc_b big_endian 1000 9) (opcode 1000) (ra 1000) 9 (rc 1000)
    × HasFields (setbc_c big_endian 1000 9) (opcode 1000) (ra 1000) (rb 1000) 9
setbc-HasFields_example = setbc-HasFields big_endian 1000 9 (omega arith)

setbc_d-fields_example :
    (opcode (setbc_d big_endian 1000 500) ≡ opcode 1000)
    × (ra (setbc_d big_endian 1000 500) ≡ ra 1000)
    × (rd (setbc_d big_endian 1000 500) ≡ 500)
setbc_d-fields_example = setbc_d-fields big_endian 1000 500 (omega arith)

round_up_pow_2-least_example :
    (k : ℕ) × (k ≤ 63) × (round_up_pow_2 100 ≡ 2 ^ k) × (100 ≤ 2 ^ k) × (2 ^ k < 2 * 100)
round_up_pow_2-least_example = round_up_pow_2-least 100 (omega arith) (omega arith)

grow_capacity_grows_example :
    (8 ≤ grow_capacity 16) × (16 < grow_capacity 16) × (16 < 8 ⊎ grow_capacity 16 ≡ 16 * 2)
grow_capacity_grows_example = grow_capacity_grows 16
