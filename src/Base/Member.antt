-- ===== src/Base/Member.antt =====
-- Membership in a list, by recursion.
use Prim.Native.Nat.{ℕ}
use native.Mathlib.Decide.{ℕ_discrete}
use mathlib.Core.List.{List, [], ◌∷◌, ◌++◌}
use mathlib.Core.Logic.{◌⊎◌, inl, inr}
use mathlib.Core.Path.{◌≡◌}
use mathlib.Core.Logic.{◌≢◌}

module _ {A : Type 0} where
  abbrev pub IsIn : A → List A → Type 0
  IsIn a [] = ⊥
  IsIn a (x ∷ xs) = (a ≡ x) ⊎ IsIn a xs

  pub IsIn-append : (a : A) (xs ys : List A) → IsIn a (xs ++ ys) → IsIn a xs ⊎ IsIn a ys
  IsIn-append a [] ys i = inr i
  IsIn-append a (x ∷ xs) ys (inl e) = inl (inl e)
  IsIn-append a (x ∷ xs) ys (inr i) = elim (IsIn-append a xs ys i) [
    | inl l ↦ inl (inr l)
    | inr r ↦ inr r
  ]

  pub IsIn-left : (a : A) (xs ys : List A) → IsIn a xs → IsIn a (xs ++ ys)
  IsIn-left a [] ys i = elim i [ ]
  IsIn-left a (x ∷ xs) ys (inl e) = inl e
  IsIn-left a (x ∷ xs) ys (inr i) = inr (IsIn-left a xs ys i)

  pub IsIn-right : (a : A) (xs ys : List A) → IsIn a ys → IsIn a (xs ++ ys)
  IsIn-right a [] ys i = i
  IsIn-right a (x ∷ xs) ys i = inr (IsIn-right a xs ys i)

-- A list without repetitions.
abbrev pub IsFresh : ℕ → List ℕ → Type 0
IsFresh x [] = Unit
IsFresh x (y ∷ ys) = (x ≢ y) × IsFresh x ys

abbrev pub IsDistinct : List ℕ → Type 0
IsDistinct [] = Unit
IsDistinct (x ∷ xs) = IsFresh x xs × IsDistinct xs

pub IsFresh-IsIn : (x y : ℕ) (xs : List ℕ) → IsFresh x xs → IsIn y xs → x ≢ y
IsFresh-IsIn x y [] fresh i = elim i [ ]
IsFresh-IsIn x y (z ∷ xs) (apart, fresh) (inl e) = rw e apart
IsFresh-IsIn x y (z ∷ xs) (apart, fresh) (inr i) = IsFresh-IsIn x y xs fresh i

pub IsIn-cases : (a : ℕ) (as' : List ℕ) → IsIn a as' ⊎ (IsIn a as' → ⊥)
IsIn-cases a [] = inr (λ i. i)
IsIn-cases a (b ∷ bs) = elim (ℕ_discrete a b) [
  | yes e ↦ inl (inl e)
  | no ne ↦ elim (IsIn-cases a bs) [
    | inl i ↦ inl (inr i)
    | inr out ↦ inr (λ i. elim i [ inl e ↦ ne e | inr j ↦ out j ])
  ]
]
