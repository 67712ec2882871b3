-- ===== src/Memory/RoundUp.antt =====
-- src/memory.h: `round_up_pow_2` finds the least power of two that is no less than its argument.
use native.Mathlib.Decide.{dec_lt}
use native.Mathlib.Nat.{
  pow-suc, pow-succ', div-one, div-div-eq-div-mul, div-le_self, pow-le-pow_right,
}
use xan.Base.{
  ℕ, zero, suc, ◌+◌, ◌-◌, ◌*◌, ◌/◌, ◌%◌, ◌^◌, ◌≤◌, ◌<◌, ◌≡◌, ◌⊎◌, inl, inr, refl, ap, arith, bit_or,
  max, ltb, Bool-cases,
}
use xan.Base.Bits.{bit_or_step}
use xan.Memory.{smear, round_up_pow_2, grow_capacity}

-- The binary digit of `n` at position `p`.
bit : ℕ → ℕ → ℕ
bit n zero = n % 2
bit n (suc p) = bit (n / 2) p

bit-bit_or : (p a b : ℕ) → bit (bit_or a b) p ≡ max (bit a p) (bit b p)
unfolding bit
bit-bit_or zero a b = omega (arith, bit_or_step a b)
bit-bit_or (suc p) a b =
    let e : bit_or a b / 2 ≡ bit_or (a / 2) (b / 2) = omega (arith, bit_or_step a b) in
    rw e (bit-bit_or p (a / 2) (b / 2))

bit_or-lt : (k a b : ℕ) → a < 2 ^ k → b < 2 ^ k → bit_or a b < 2 ^ k
bit_or-lt zero a b ha hb =
    let e : a ≡ 0 = omega arith in let f : b ≡ 0 = omega arith in rw (e, f) (omega arith)
bit_or-lt (suc k) a b ha hb = omega (
  arith,
  pow-suc 2 k,
  bit_or_step a b,
  bit_or-lt k (a / 2) (b / 2) (omega (arith, pow-suc 2 k)) (omega (arith, pow-suc 2 k)),
)

halve_shift : (i n : ℕ) → n / 2 ^ suc i ≡ n / 2 / 2 ^ i
halve_shift i n = rw (div-div-eq-div-mul, pow-succ')

bit_shift : (i n p : ℕ) → bit (n / 2 ^ i) p ≡ bit n (i + p)
unfolding bit
bit_shift zero n p = rw div-one (let e : 0 + p ≡ p = omega arith in rw e)
bit_shift (suc i) n p =
    let e : suc i + p ≡ suc (i + p) = omega arith in rw (halve_shift, e) (bit_shift i (n / 2) p)

bit_top : (k n : ℕ) → 2 ^ k ≤ n → n < 2 ^ suc k → bit n k ≡ 1
unfolding bit
bit_top zero n lo hi = omega (arith, pow-suc 2 0)
bit_top (suc k) n lo hi =
    bit_top k (n / 2) (omega (arith, pow-suc 2 k)) (omega (arith, pow-suc 2 (suc k)))

bit_le : (p n : ℕ) → bit n p ≤ 1
unfolding bit
bit_le zero n = omega arith
bit_le (suc p) n = bit_le p (n / 2)

all_ones : (k n : ℕ) → n < 2 ^ suc k → ((p : ℕ) → p ≤ k → bit n p ≡ 1) → n + 1 ≡ 2 ^ suc k
unfolding bit
all_ones zero n hi h = omega (arith, h 0 (omega arith), pow-suc 2 0)
all_ones (suc k) n hi h = omega (
  arith,
  pow-suc 2 (suc k),
  h 0 (omega arith),
  all_ones k (n / 2) (omega (arith, pow-suc 2 (suc k))) (λ p q. h (suc p) (omega arith)),
)

-- The `i` highest digits up to position `k` are ones.
abbrev HasTop : ℕ → ℕ → ℕ → Type 0
HasTop i k n = (p : ℕ) → p ≤ k → k < p + i → bit n p ≡ 1

HasTop-double : (i k n : ℕ) → HasTop i k n → HasTop (i * 2) k (bit_or n (n / 2 ^ i))
HasTop-double i k n top p le lt = elim (dec_lt k (p + i)) [
  | yes near ↦ rw bit-bit_or (omega (arith, top p le near, bit_le p (n / 2 ^ i)))
  | no far ↦
      rw (bit-bit_or, bit_shift)
        (omega (arith, top (i + p) (omega arith) (omega arith), bit_le p n))
]

smear-HasTop :
    (fuel i n k : ℕ)
    → 64 ≤ i * 2 ^ fuel
    → n < 2 ^ suc k
    → HasTop i k n
    → (smear fuel i n < 2 ^ suc k) × HasTop 64 k (smear fuel i n)
unfolding smear
smear-HasTop zero i n k enough hi top = (hi, λ p le lt. top p le (omega arith))
smear-HasTop (suc fuel) i n k enough hi top = elim (Bool-cases (ltb i 64)) [
  | inl more ↦ rw more (
      smear-HasTop fuel (i * 2) (bit_or n (n / 2 ^ i)) k
        (omega (arith, ap (λ (t : ℕ). i * t) (pow-suc 2 fuel)))
        (bit_or-lt (suc k) n (n / 2 ^ i) hi (omega (arith, div-le_self n (2 ^ i))))
        (HasTop-double i k n top))
  | inr end ↦ rw end (hi, λ p le lt. top p le (ground arith))
]

smear_ones : (m k : ℕ) → k < 63 → 2 ^ k ≤ m → m < 2 ^ suc k → smear 7 1 m + 1 ≡ 2 ^ suc k
smear_ones m k small lo hi =
    let start : HasTop 1 k m = λ p le lt. let e : p ≡ k = omega arith in rw e (bit_top k m lo hi) in
    let done = smear-HasTop 7 1 m k (omega arith) hi start in
    all_ones k (smear 7 1 m) done.0 (λ p le. done.1 p le (omega arith))

round_up-between : (k n : ℕ) → k < 63 → 2 ^ k < n → n ≤ 2 ^ suc k → round_up_pow_2 n ≡ 2 ^ suc k
unfolding round_up_pow_2
round_up-between k n small lo hi =
    let top : 2 ^ suc k ≤ 2 ^ 63 =
      pow-le-pow_right (omega arith) {i = suc k} {j = 63} (omega arith) in
    let less : (n + (2 ^ 64 - 1)) % 2 ^ 64 ≡ n - 1 = omega arith in
    rw less (omega (arith, smear_ones (n - 1) k small (omega arith) (omega arith)))

-- Every number between 2 and `2 ^ b` lies between two neighbouring powers.
power_between : (b n : ℕ) → 1 < n → n ≤ 2 ^ b → (k : ℕ) × (k < b) × (2 ^ k < n) × (n ≤ 2 ^ suc k)
power_between zero n lo hi = absurd (omega arith)
power_between (suc b) n lo hi = elim (dec_lt (2 ^ b) n) [
  | yes above ↦ (b, omega arith, above, hi)
  | no below ↦ let (k, small, l, h) = power_between b n lo (omega arith) in (k, omega arith, l, h)
]

-- For `1 ≤ n ≤ 2 ^ 63` the result is a power of two, no less than `n` and less than `2 * n`: the
-- least power of two that holds `n`.
pub round_up_pow_2-least :
    (n : ℕ)
    → 1 ≤ n
    → n ≤ 2 ^ 63
    → (k : ℕ) × (k ≤ 63) × (round_up_pow_2 n ≡ 2 ^ k) × (n ≤ 2 ^ k) × (2 ^ k < 2 * n)
round_up_pow_2-least n lo hi = elim (dec_lt 1 n) [
  | yes more ↦
      let (k, small, l, h) = power_between 63 n more hi in
      (suc k, omega arith, round_up-between k n small l h, h, omega (arith, pow-suc 2 k))
  | no one ↦
      let e : n ≡ 1 = omega arith in
      rw e (0, omega arith, unfold round_up_pow_2 smear in refl, omega arith, omega arith)
]

-- The new capacity is at least 8 and, from 8 on, twice the old one, so a full array gets room.
pub grow_capacity_grows :
    (c : ℕ) → (8 ≤ grow_capacity c) × (c < grow_capacity c) × (c < 8 ⊎ grow_capacity c ≡ c * 2)
unfolding grow_capacity
grow_capacity_grows c = ground arith
