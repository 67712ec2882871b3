-- ===== src/Compiler/Scopes/Entries.antt =====
-- src/parse.c, `var_lookup_uv`: the entries of a function's `upvalues`, and what they lead to.
use native.Mathlib.Decide.{ℕ_discrete}
use xan.Base.Bits.{bit_or_disjoint}
use xan.Base.{
  ℕ, zero, suc, ◌+◌, ◌-◌, ◌/◌, ◌%◌, ◌^◌, ◌<◌, ◌≡◌, refl, ◌∙◌, ◌⊎◌, inl, inr, arith, bit_or, Bool,
  true, false, List, [], ◌∷◌, ◌++◌, Option, none, some, ◌==◌, get_or, get_or-set, get_or-append,
  length, Option-cases,
}
use xan.Compiler.Scopes.{
  Local, Scope, no_local, uv_is_local, uv_mark, find_uv, add_uv, Variable, local_var, upvalue_var,
  global_var, source,
}
use xan.Compiler.Scopes.Names.{Resolves}

-- A function that is being compiled and does not have too many upvalues yet.
pub record IsScope (c : Scope) : Type 0 where
  pub places : length c.locals ≡ 256
  pub active : c.act_var < 256
  pub few : length c.upvalues < 255

abbrev pub AllScopes : List Scope → Type 0
AllScopes [] = Unit
AllScopes (c ∷ cs) = IsScope c × AllScopes cs

-- A step outwards.
abbrev pub outward : Option (ℕ × ℕ) → Option (ℕ × ℕ)
outward none = none
outward (some p) = some (p.0 + 1, p.1)

-- Where a name is declared: how many functions out, and at which place.
pub data Declared (name : List ℕ) : List Scope → Option (ℕ × ℕ) → Type 0 where
  nowhere : Declared name [] none
  here :
      (c : Scope) (cs : List Scope) (i : ℕ)
      → Resolves c.locals name (c.act_var + 1) (some i)
      → Declared name (c ∷ cs) (some (0, i))
  outside :
      (c : Scope) (cs : List Scope) (p : Option (ℕ × ℕ))
      → Resolves c.locals name (c.act_var + 1) none
      → Declared name cs p
      → Declared name (c ∷ cs) (outward p)

-- What a lookup does to one function: it may mark locals as captured and add upvalues behind the others.
pub record Grows (c d : Scope) : Type 0 where
  pub names_same : (j : ℕ) → (get_or d.locals j no_local).name ≡ (get_or c.locals j no_local).name
  pub captured_kept :
      (j : ℕ)
      → (get_or c.locals j no_local).is_captured ≡ true
      → (get_or d.locals j no_local).is_captured ≡ true
  pub upvalues_kept :
      (k : ℕ) → k < length c.upvalues → get_or d.upvalues k 0 ≡ get_or c.upvalues k 0
  pub active_same : d.act_var ≡ c.act_var

abbrev pub AllGrow : List Scope → List Scope → Type 0
AllGrow [] [] = Unit
AllGrow [] (d ∷ ds) = ⊥
AllGrow (c ∷ cs) [] = ⊥
AllGrow (c ∷ cs) (d ∷ ds) = Grows c d × AllGrow cs ds

-- An index that `upvalues` can hold next to the bit `UV_IS_LOCAL`.
abbrev pub IsSmall : Variable → Type 0
IsSmall (local_var i) = i < 256
IsSmall (upvalue_var k) = k < 255
IsSmall global_var = Unit

abbrev pub captured_at : List Scope → ℕ → ℕ → Bool
captured_at [] l i = true
captured_at (c ∷ cs) zero i = (get_or c.locals i no_local).is_captured
captured_at (c ∷ cs) (suc l) i = captured_at cs l i

pub Grows-refl : (c : Scope) → Grows c c
Grows-refl c = record {
  names_same = λ j. refl;
  captured_kept = λ j is. is;
  upvalues_kept = λ k lt. refl;
  active_same = refl;
}

pub AllGrow-refl : (cs : List Scope) → AllGrow cs cs
AllGrow-refl [] = tt
AllGrow-refl (c ∷ cs) = (Grows-refl c, AllGrow-refl cs)

find_uv_lem :
    (us : List ℕ) (x i : ℕ) → find_uv us x ≡ some i → (i < length us) × (get_or us i 0 ≡ x)
find_uv_lem [] x i e = cc
find_uv_lem (u ∷ us) x i e = elim (ℕ_discrete u x) [
  | yes same ↦
      let test : (u == x) ≡ true = ground arith in
      let at : i ≡ 0 = is_zero (rw test at e) in (omega arith, rw at same)
  | no ne ↦
      let test : (u == x) ≡ false = ground arith in
      elim (Option-cases (find_uv us x)) [
        | inl absent ↦ absurd (no_index (rw (test, absent) at e))
        | inr (j, there) ↦
            let at : i ≡ suc j = next (rw (test, there) at e) in
            let (inside, holds) = find_uv_lem us x j there in (omega arith, rw at holds)
      ]
]
  where
    is_zero : {i : ℕ} → some 0 ≡ some i → i ≡ 0
    is_zero p = cc

    no_index : {i : ℕ} → none ≡ some i → ⊥
    no_index p = cc

    next : {i j : ℕ} → some (suc j) ≡ some i → i ≡ suc j
    next p = cc

get_or-last : (xs : List ℕ) (x d : ℕ) → get_or (xs ++ x ∷ []) (length xs) d ≡ x
get_or-last [] x d = refl
get_or-last (y ∷ xs) x d = get_or-last xs x d

-- An entry for `larg`, found or new.
pub add_uv_lem :
    (c : Scope) (larg : ℕ)
    → length c.upvalues < 255
    → (k : ℕ) × ((d : Scope) × (add_uv c larg ≡ some (k, d))
        × (k < 255)
        × (get_or d.upvalues k 0 ≡ larg)
        × Grows c d)
unfolding add_uv
add_uv_lem c larg few = elim (Option-cases (find_uv c.upvalues larg)) [
  | inr (i, at) ↦
      let (inside, holds) = find_uv_lem c.upvalues larg i at in
      (i, (c, rw (add_uv, at) refl, omega arith, holds, Grows-refl c))
  | inl absent ↦
      let test : (length c.upvalues == 256) ≡ false = ground arith in
      (
        length c.upvalues,
        (
          record c { upvalues = c.upvalues ++ larg ∷ [] },
          rw (add_uv, absent, test) refl,
          few,
          get_or-last c.upvalues larg 0,
          record {
            names_same = λ j. refl;
            captured_kept = λ j is. is;
            upvalues_kept = λ k lt. get_or-append c.upvalues (larg ∷ []) k 0 lt;
            active_same = refl;
          },
        ),
      )
]

pub uv_mark-Grows :
    (c : Scope) (i : ℕ)
    → i < length c.locals
    → Grows c (uv_mark c i) × ((get_or (uv_mark c i).locals i no_local).is_captured ≡ true)
uv_mark-Grows c i inside =
    let l : Local = record (get_or c.locals i no_local) { is_captured = true } in
    let at = λ (j : ℕ). get_or-set c.locals i j l no_local inside in
    (
      record {
        names_same = λ j. ground (arith, at j);
        captured_kept = λ j is. ground (arith, at j, is);
        upvalues_kept = λ k lt. refl;
        active_same = refl;
      },
      ground (arith, at i),
    )

-- What `var_lookup` finds, in the functions `scopes` as they are afterwards.
pub record Looks (name : List ℕ) (before : List Scope) (local : Bool) (v : Variable)
    (scopes : List Scope) : Type 0 where
  pub declared : Declared name before (source scopes v)
  pub small : IsSmall v
  pub grows : AllGrow before scopes
  pub captured :
      (l i : ℕ)
      → source scopes v ≡ some (l, i)
      → (local ≡ false) ⊎ (0 < l)
      → captured_at scopes l i ≡ true

-- What `OP_CLOSURE` makes of an entry for a local, and for an upvalue.
pub source_local :
    (c : Scope) (cs : List Scope) (k i : ℕ)
    → i < 256
    → get_or c.upvalues k 0 ≡ bit_or i uv_is_local
    → source (c ∷ cs) (upvalue_var k) ≡ outward (source cs (local_var i))
unfolding source
source_local c cs k i lt e =
    let sum : get_or c.upvalues k 0 ≡ i + 256 = e ∙ bit_or_disjoint 8 i 1 lt in
    let bit : (i + 256) / 2 ^ 8 % 2 ≡ 1 = omega arith in
    let low : (i + 256) % 2 ^ 8 ≡ i = omega arith in rw (sum, bit, low) refl

pub source_upvalue :
    (c : Scope) (cs : List Scope) (k j : ℕ)
    → j < 255
    → get_or c.upvalues k 0 ≡ j + 1
    → source (c ∷ cs) (upvalue_var k) ≡ outward (source cs (upvalue_var j))
unfolding source
source_upvalue c cs k j lt e =
    let bit : (j + 1) / 2 ^ 8 % 2 ≡ 0 = omega arith in
    let low : (j + 1) % 2 ^ 8 - 1 ≡ j = omega arith in rw (e, bit, low) refl
