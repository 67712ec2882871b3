-- ===== src/Base/Bits.antt =====
-- The laws of `&`, `|` and the shifts that packing and masking rest on, at every width.
use Prim.Native.Nat.{
  ℕ, zero, suc, ◌+◌, ◌-◌, ◌*◌, ◌/◌, ◌%◌, ◌^◌, ◌≤◌, ◌<◌, bit_and, bit_or, min, max, digits, bitwise,
  bit_and-bitwise, bit_or-bitwise,
}
use mathlib.Core.Path.{◌≡◌, refl, ap}
use native.Mathlib.Nat.{pow-suc, one-le-pow}
use native.Mathlib.Omega.{arith}

module _ (z : ℕ → ℕ) (f : ℕ → ℕ → ℕ) where
  -- Any fuel that covers the first number serves.
  fuel_covers : (n a b : ℕ) → a ≤ n → (m : ℕ) → a ≤ m → digits z f n a b ≡ digits z f m a b
  fuel_covers zero zero b p zero q = refl
  fuel_covers zero zero b p (suc m) q = refl
  fuel_covers (suc n) zero b p zero q = refl
  fuel_covers (suc n) zero b p (suc m) q = refl
  fuel_covers zero (suc a) b p m q = absurd (omega arith)
  fuel_covers (suc n) (suc a) b p zero q = absurd (omega arith)
  fuel_covers (suc n) (suc a) b p (suc m) q =
      rw (fuel_covers n (suc a / 2) (b / 2) (omega arith) m (omega arith))

  lowest_digit :
      (x y : ℕ) → 1 ≤ x → bitwise z f x y ≡ f (x % 2) (y % 2) + 2 * bitwise z f (x / 2) (y / 2)
  lowest_digit zero y positive = absurd (omega arith)
  lowest_digit (suc x) y positive =
      omega (arith, fuel_covers x (suc x / 2) (y / 2) (omega arith) (suc x / 2) (omega arith))

pub bit_or_step : (x y : ℕ) → bit_or x y ≡ max (x % 2) (y % 2) + 2 * bit_or (x / 2) (y / 2)
bit_or_step zero y = simp bit_or-bitwise (omega arith)
bit_or_step (suc n) y = simp bit_or-bitwise (lowest_digit (λ d. d) max (suc n) y (omega arith))

pub bit_and_step : (x y : ℕ) → bit_and x y ≡ min (x % 2) (y % 2) + 2 * bit_and (x / 2) (y / 2)
bit_and_step zero y = simp bit_and-bitwise (omega arith)
bit_and_step (suc n) y = simp bit_and-bitwise (lowest_digit (λ d. 0) min (suc n) y (omega arith))

zero-bit_or : (b : ℕ) → bit_or 0 b ≡ b
zero-bit_or b = simp bit_or-bitwise

below : (n a : ℕ) → a ≤ n → bit_and a 0 ≡ 0
below n zero h = refl
below zero (suc a) h = absurd (omega arith)
below (suc n) (suc a) h = omega (arith, bit_and_step (suc a) 0, below n (suc a / 2) (omega arith))

pub bit_and-zero : (a : ℕ) → bit_and a 0 ≡ 0
bit_and-zero a = below a a (omega arith)

-- A low field and a high field do not overlap: `r | (q << k)` is their sum.
pub bit_or_disjoint : (k r q : ℕ) → r < 2 ^ k → bit_or r (q * 2 ^ k) ≡ r + q * 2 ^ k
bit_or_disjoint zero r q h =
    let e : r ≡ 0 = omega arith in rw e (omega (arith, zero-bit_or (q * 2 ^ 0)))
bit_or_disjoint (suc k) r q h =
    let p : q * 2 ^ suc k ≡ 2 * (q * 2 ^ k) = omega (arith, ap (λ (t : ℕ). q * t) (pow-suc 2 k)) in
    ground (
      arith,
      p,
      pow-suc 2 k,
      bit_or_step r (q * 2 ^ suc k),
      bit_or_disjoint k (r / 2) q (omega (arith, pow-suc 2 k)),
    )

masked_field : (k q r : ℕ) → r < 2 ^ k → bit_and (q * 2 ^ k + r) (2 ^ k - 1) ≡ r
masked_field zero q r h = omega (arith, bit_and-zero (q * 2 ^ 0 + r))
masked_field (suc k) q r h =
    let p : q * 2 ^ suc k ≡ 2 * (q * 2 ^ k) = omega (arith, ap (λ (t : ℕ). q * t) (pow-suc 2 k)) in
    ground (
      arith,
      p,
      pow-suc 2 k,
      one-le-pow k 2,
      bit_and_step (q * 2 ^ suc k + r) (2 ^ suc k - 1),
      masked_field k q (r / 2) (omega (arith, pow-suc 2 k)),
    )

-- A mask of `k` ones takes the remainder by `2 ^ k`.
pub bit_and_mask : (k a : ℕ) → bit_and a (2 ^ k - 1) ≡ a % 2 ^ k
bit_and_mask k a = ground (arith, one-le-pow k 2, masked_field k (a / 2 ^ k) (a % 2 ^ k))
