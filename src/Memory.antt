-- ===== src/Memory.antt =====
-- src/memory.h: the sizes that arrays and tables grow to. A `size_t` is a number below `2 ^ 64`.
pub mod RoundUp
use xan.Base.{ℕ, zero, suc, ◌+◌, ◌-◌, ◌*◌, ◌/◌, ◌%◌, ◌^◌, bit_or, ltb, if◌then◌else◌}

-- `GROW_CAPACITY`.
unfoldable pub grow_capacity : ℕ → ℕ
grow_capacity capacity = if ltb capacity 8 then 8 else capacity * 2

-- The loop of `round_up_pow_2`; `i` doubles up to the 64 bits of a `size_t`, so seven tests end it.
unfoldable pub smear : ℕ → ℕ → ℕ → ℕ
smear zero i n = n
smear (suc fuel) i n =
    let rest = smear fuel (i * 2) (bit_or n (n / 2 ^ i)) in if ltb i 64 then rest else n

unfoldable pub round_up_pow_2 : ℕ → ℕ
round_up_pow_2 n = (smear 7 1 ((n + (2 ^ 64 - 1)) % 2 ^ 64) + 1) % 2 ^ 64
