-- ===== src/Base/Bytes.antt =====
-- Bytes in memory, compared by `memcmp`.
use native.Mathlib.Decide.{ℕ_discrete}
use xan.Base.{ℕ, ◌≡◌, refl, arith, Bool, true, false, List, [], ◌∷◌, ◌==◌, if◌then◌else◌, length}

-- `memcmp` over the length of the first name, which does not exceed the second.
abbrev pub same_bytes : List ℕ → List ℕ → Bool
same_bytes [] ys = true
same_bytes (x ∷ xs) [] = false
same_bytes (x ∷ xs) (y ∷ ys) = let rest = same_bytes xs ys in if x == y then rest else false

-- Of lists of the same length it is equality.
pub same_bytes_lem : (xs ys : List ℕ) → length xs ≡ length ys → same_bytes xs ys ≡ true → xs ≡ ys
same_bytes_lem [] [] e h = refl
same_bytes_lem [] (y ∷ ys) e h = absurd (omega arith)
same_bytes_lem (x ∷ xs) [] e h = absurd (omega arith)
same_bytes_lem (x ∷ xs) (y ∷ ys) e h = elim (ℕ_discrete x y) [
  | yes same ↦
      let test : (x == y) ≡ true = ground arith in
      let rest = same_bytes_lem xs ys (omega arith) (rw test at h) in rw (same, rest) refl
  | no ne ↦ let test : (x == y) ≡ false = ground arith in absurd (differ (rw test at h))
]
  where
    differ : false ≡ true → ⊥
    differ p = cc

pub same_bytes_refl : (xs : List ℕ) → same_bytes xs xs ≡ true
same_bytes_refl [] = refl
same_bytes_refl (x ∷ xs) = let test : (x == x) ≡ true = ground arith in rw test (same_bytes_refl xs)
