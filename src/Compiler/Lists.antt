-- ===== src/Compiler/Lists.antt =====
-- Jump lists as lists of positions.
use mathlib.Core.List.{append-nil}
use xan.Base.{
  IsFresh, IsDistinct, ℕ, zero, suc, ◌^◌, ◌<◌, ◌≤◌, ◌≡◌, ◌≢◌, refl, sym, arith, false, List, [],
  ◌∷◌, ◌++◌, some, ◌==◌, length,
}
use xan.Bytecode.{Endian, no_jump}
use xan.Compiler.{jump_next, list_end, jump_append}
use xan.Compiler.Jumps.{Reaches, jump_patch_instruction_lem}

-- From `list` on, the jumps of the code run through these positions and end.
abbrev pub IsChain : List ℕ → ℕ → List ℕ → Type 0
IsChain code list [] = list ≡ no_jump
IsChain code list (pc ∷ pcs) =
    (list ≡ pc) × (pc < length code) × (pc < 2 ^ 31) × IsChain code (jump_next code pc) pcs

-- The last of a position and those behind it.
abbrev pub final : ℕ → List ℕ → ℕ
final x [] = x
final x (y ∷ ys) = final y ys

IsFresh-append : (x : ℕ) (y : ℕ) (ys zs : List ℕ) → IsFresh x (y ∷ ys ++ zs) → x ≢ final y ys
IsFresh-append x y [] zs (apart, _) = apart
IsFresh-append x y (z ∷ ys) zs (_, fresh) = IsFresh-append x z ys zs fresh

final-IsFresh : (x : ℕ) (xs ys : List ℕ) → IsDistinct (x ∷ xs ++ ys) → IsFresh (final x xs) ys
final-IsFresh x [] ys (fresh, _) = fresh
final-IsFresh x (y ∷ xs) ys (_, distinct) = final-IsFresh y xs ys distinct

final-inside :
    (code : List ℕ) (list x : ℕ) (xs : List ℕ)
    → IsChain code list (x ∷ xs)
    → (final x xs < length code) × (final x xs < 2 ^ 31)
final-inside code list x [] (_, inside, small, _) = (inside, small)
final-inside code list x (y ∷ xs) (_, _, _, chain) = final-inside code (jump_next code x) y xs chain

-- Enough fuel finds the last jump.
list_end_lem :
    (fuel : ℕ) (code : List ℕ) (list x : ℕ) (xs : List ℕ)
    → IsChain code list (x ∷ xs)
    → length xs < fuel
    → list_end fuel code list ≡ some (final x xs)
unfolding list_end
list_end_lem zero code list x xs chain enough = absurd (omega arith)
list_end_lem (suc fuel) code list x [] (at, _, _, stop) enough = rw (at, stop) refl
list_end_lem (suc fuel) code list x (y ∷ xs) (at, inside, small, chain) enough =
    let rest = list_end_lem fuel code (jump_next code x) y xs chain (omega arith) in
    let on : (jump_next code x == no_jump) ≡ false = ground (arith, chain.0, chain.2) in
    rw (at, on) rest

module _ (code code' : List ℕ) (same_length : length code' ≡ length code) where
  -- A chain that avoids the changed jump stays.
  pub IsChain-elsewhere :
      (src list : ℕ) (pcs : List ℕ)
      → ((pc : ℕ) → src ≢ pc → jump_next code' pc ≡ jump_next code pc)
      → IsFresh src pcs
      → IsChain code list pcs
      → IsChain code' list pcs
  IsChain-elsewhere src list [] same fresh chain = chain
  IsChain-elsewhere src list (pc ∷ pcs) same (apart, fresh) (at, inside, small, chain) = (
    at,
    rw same_length inside,
    small,
    rw (same pc apart) (IsChain-elsewhere src (jump_next code pc) pcs same fresh chain),
  )

  -- A chain whose last jump goes to another one continues with that.
  IsChain-joined :
      (list x : ℕ) (xs ys : List ℕ) (list2 : ℕ)
      → ((pc : ℕ) → final x xs ≢ pc → jump_next code' pc ≡ jump_next code pc)
      → jump_next code' (final x xs) ≡ list2
      → IsDistinct (x ∷ xs ++ ys)
      → IsChain code list (x ∷ xs)
      → IsChain code' list2 ys
      → IsChain code' list (x ∷ xs ++ ys)
  IsChain-joined list x [] ys list2 same there distinct (at, inside, small, stop) chain2 =
      (at, rw same_length inside, small, rw there chain2)
  IsChain-joined list x (y ∷ xs) ys list2 same there (fresh, distinct) (at, inside, small, chain)
        chain2 =
      (
        at,
        rw same_length inside,
        small,
        rw (same x (λ e. IsFresh-append x y xs ys fresh (sym e)))
            (IsChain-joined (jump_next code x) y xs ys list2 same there distinct chain chain2),
      )

-- `jump_append` joins two lists of jumps that share no position, with fuel for each jump of the first
-- list, where the last jump of the first list reaches the first one of the second list. It reports
-- no error, the first list then runs on through the second one, and the code has its old length.
pub jump_append-IsChain :
    (e : Endian) (fuel : ℕ) (code : List ℕ) (list1 list2 : ℕ) (xs ys : List ℕ)
    → IsChain code list1 xs
    → IsChain code list2 ys
    → IsDistinct (xs ++ ys)
    → ((x y : ℕ) (xs' ys' : List ℕ) → xs ≡ x ∷ xs' → ys ≡ y ∷ ys' → Reaches (final x xs') y)
    → length xs ≤ fuel
    → (list : ℕ) × ((code' : List ℕ) × (jump_append e fuel code list1 list2
          ≡ some (list, false, code'))
        × IsChain code' list (xs ++ ys)
        × (length code' ≡ length code))
unfolding jump_append
jump_append-IsChain e fuel code list1 list2 [] [] chain1 chain2 distinct near enough =
    (list1, (code, rw chain2 refl, chain1, refl))
jump_append-IsChain e fuel code list1 list2 (x ∷ xs) [] chain1 chain2 distinct near enough =
    (list1, (code, rw chain2 refl, rw append-nil chain1, refl))
jump_append-IsChain e fuel code list1 list2 [] (y ∷ ys) chain1 chain2 distinct near enough =
    (list2, (code, ground (arith, chain1, chain2.0, chain2.2), chain2, refl))
jump_append-IsChain e fuel code list1 list2 (x ∷ xs) (y ∷ ys) chain1 chain2 distinct near enough =
    let end = final x xs in
    let (inside, _) = final-inside code list1 x xs chain1 in
    let reach : Reaches end list2 = rw chain2.0 (near x y xs ys refl refl) in
    let (code', run, there, _, _, size, elsewhere) =
      jump_patch_instruction_lem e code end list2 inside reach in
    let same : (pc : ℕ) → end ≢ pc → jump_next code' pc ≡ jump_next code pc =
      λ pc apart. unfold jump_next in rw (elsewhere pc apart) refl in
    let chain2' =
      IsChain-elsewhere code code' size end list2 (y ∷ ys) same
        (final-IsFresh x xs (y ∷ ys) distinct) chain2 in
    let second : (list2 == no_jump) ≡ false = ground (arith, chain2.0, chain2.2) in
    let first : (list1 == no_jump) ≡ false = ground (arith, chain1.0, chain1.2) in
    let found = list_end_lem fuel code list1 x xs chain1 (omega arith) in
    (
      list1,
      (
        code',
        rw (second, first) (rw (found, run) refl),
        IsChain-joined code code' size list1 x xs (y ∷ ys) list2 same there distinct chain1 chain2',
        size,
      ),
    )
