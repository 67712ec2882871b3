-- ===== src/Compiler/Scopes/Names.antt =====
-- src/parse.c, `identifiersEqual` and `resolveLocal`: the innermost local of a name.
use native.Mathlib.Decide.{dec_lt, ℕ_discrete}
use xan.Base.{
  ap, ◌∙◌, ℕ, zero, suc, ◌+◌, ◌<◌, ◌≡◌, ◌≢◌, refl, sym, inl, inr, arith, Bool, true, false, List,
  Option, none, some, ◌==◌, get_or, length, Bool-cases,
}
use xan.Base.Bytes.{same_bytes_lem, same_bytes_refl}
use xan.Compiler.Scopes.{Local, Scope, no_local, identifiers_equal, resolve_from, resolve_local}

pub identifiers_equal_refl : (a : List ℕ) → identifiers_equal a a ≡ true
identifiers_equal_refl a =
    let test : (length a == length a) ≡ true = ground arith in rw (test, same_bytes_refl a) refl

pub identifiers_equal_lem : (a b : List ℕ) → identifiers_equal a b ≡ true → a ≡ b
identifiers_equal_lem a b h = elim (ℕ_discrete (length a) (length b)) [
  | yes e ↦
      let test : (length a == length b) ≡ true = ground arith in same_bytes_lem a b e (rw test at h)
  | no ne ↦
      let test : (length a == length b) ≡ false = ground arith in absurd (differ (rw test at h))
]
  where
    differ : false ≡ true → ⊥
    differ p = cc

-- The place of the last local of a name below `n`, or that there is none.
pub data Resolves (locals : List Local) (name : List ℕ) (n : ℕ) : Option ℕ → Type 0 where
  found :
      (i : ℕ)
      → i < n
      → (get_or locals i no_local).name ≡ name
      → ((j : ℕ) → i < j → j < n → (get_or locals j no_local).name ≢ name)
      → Resolves locals name n (some i)
  unknown : ((j : ℕ) → j < n → (get_or locals j no_local).name ≢ name) → Resolves locals name n none

differ : {b : Bool} → b ≡ true → b ≡ false → ⊥
differ p q = cc

pub Resolves-later :
    (locals : List Local) (name : List ℕ) (n : ℕ) (r : Option ℕ)
    → (get_or locals n no_local).name ≢ name
    → Resolves locals name n r
    → Resolves locals name (suc n) r
Resolves-later locals name n r apart (found i lt e above) =
    found i (omega arith) e
      (λ j gt le. elim (ℕ_discrete j n) [ yes p ↦ rw p apart | no ne ↦ above j gt (omega arith) ])
Resolves-later locals name n r apart (unknown none_there) =
    unknown
      (λ j le. elim (ℕ_discrete j n) [ yes p ↦ rw p apart | no ne ↦ none_there j (omega arith) ])

-- It depends on the names only.
pub Resolves-same :
    (locals locals' : List Local) (name : List ℕ) (n : ℕ) (r : Option ℕ)
    → ((j : ℕ) → j < n → (get_or locals' j no_local).name ≡ (get_or locals j no_local).name)
    → Resolves locals name n r
    → Resolves locals' name n r
Resolves-same locals locals' name n r same (found i lt e above) =
    found i lt (same i lt ∙ e) (λ j gt le p. above j gt le (sym (same j le) ∙ p))
Resolves-same locals locals' name n r same (unknown none_there) =
    unknown (λ j le p. none_there j le (sym (same j le) ∙ p))

pub Resolves-unique :
    (locals : List Local) (name : List ℕ) (n : ℕ) (r r' : Option ℕ)
    → Resolves locals name n r
    → Resolves locals name n r'
    → r ≡ r'
Resolves-unique locals name n r r' (found i lt e above) (found i' lt' e' above') =
    elim (dec_lt i i') [
      | yes less ↦ absurd (above i' less lt' e')
      | no ge ↦ elim (ℕ_discrete i i') [
        | yes same ↦ ap some same
        | no ne ↦ absurd (above' i (omega arith) lt e)
      ]
    ]
Resolves-unique locals name n r r' (found i lt e above) (unknown none_there) =
    absurd (none_there i lt e)
Resolves-unique locals name n r r' (unknown none_there) (found i lt e above) =
    absurd (none_there i lt e)
Resolves-unique locals name n r r' (unknown none_there) (unknown none_there') = refl

resolve_from-Resolves :
    (locals : List Local) (name : List ℕ) (n : ℕ)
    → Resolves locals name n (resolve_from locals name n)
unfolding resolve_from
resolve_from-Resolves locals name zero = unknown (λ j lt. absurd (omega arith))
resolve_from-Resolves locals name (suc n) =
    let here = (get_or locals n no_local).name in
    elim (Bool-cases (identifiers_equal name here)) [
      | inl is ↦ rw is (
          found n (omega arith) (sym (identifiers_equal_lem name here is))
            (λ j above below. absurd (omega arith)))
      | inr off ↦
          let apart : here ≢ name = λ e. differ (identifiers_equal_refl name) (rw e at off) in
          rw off (Resolves-later locals name n _ apart (resolve_from-Resolves locals name n))
    ]

-- `resolveLocal` finds the last of the active locals with the name, or that there is none.
pub resolve_local-Resolves :
    (c : Scope) (name : List ℕ) → Resolves c.locals name (c.act_var + 1) (resolve_local c name)
unfolding resolve_local
resolve_local-Resolves c name = resolve_from-Resolves c.locals name (c.act_var + 1)
