-- ===== src/Compiler/Scopes/Lookup.antt =====
-- src/parse.c, `var_lookup` and `var_lookup_uv`: a name refers to its innermost declaration.
use xan.Base.{
  ℕ, suc, ◌+◌, ◌<◌, ◌≡◌, refl, sym, ap, ◌∙◌, inl, inr, arith, bit_or, Bool, true, false, List, [],
  ◌∷◌, Option, none, some, if◌then◌else◌, Option-cases,
}
use xan.Compiler.Scopes.{
  Local, Scope, resolve_local, uv_is_local, uv_mark, is_unset, Variable, local_var, upvalue_var,
  global_var, through, var_lookup, source,
}
use xan.Compiler.Scopes.Names.{Resolves, found, resolve_local-Resolves}
use xan.Compiler.Scopes.Entries.{
  IsScope, AllScopes, outward, nowhere, here, outside, Grows, captured_at, Grows-refl, AllGrow-refl,
  add_uv_lem, uv_mark-Grows, Looks, source_local, source_upvalue,
}

abbrev place : ℕ → ℕ → Option (ℕ × ℕ)
place l i = some (l, i)

place_inj : {l i m j : ℕ} → place l i ≡ place m j → (l ≡ m) × (i ≡ j)
place_inj e = (ap function_of e, ap index_of e)
  where
    function_of : Option (ℕ × ℕ) → ℕ
    function_of o = elim o [ none ↦ 0 | some p ↦ p.0 ]

    index_of : Option (ℕ × ℕ) → ℕ
    index_of o = elim o [ none ↦ 0 | some p ↦ p.1 ]

no_place : {l i : ℕ} → none ≡ place l i → ⊥
no_place e = cc

-- The local is in the function itself.
local-Looks :
    (name : List ℕ) (c : Scope) (cs : List Scope) (i : ℕ) (local : Bool)
    → IsScope c
    → Resolves c.locals name (c.act_var + 1) (some i)
    → i < c.act_var + 1
    → Looks name (c ∷ cs) local (local_var i) ((if local then c else uv_mark c i) ∷ cs)
unfolding source
local-Looks name c cs i true s r lt = record {
  declared = here c cs i r;
  small = omega (arith, s.active);
  grows = (Grows-refl c, AllGrow-refl cs);
  captured = λ l j e which. elim which [
    | inl f ↦ absurd (true_false f)
    | inr up ↦ let (zero_l, at) = place_inj e in absurd (omega arith)
  ];
}
  where
    true_false : true ≡ false → ⊥
    true_false f = cc
local-Looks name c cs i false s r lt =
    let (g, marked) = uv_mark-Grows c i (omega (arith, s.active, s.places)) in
    record {
      declared = here c cs i r;
      small = omega (arith, s.active);
      grows = (g, AllGrow-refl cs);
      captured = λ l j e which. let (zero_l, at) = place_inj e in rw (← zero_l, ← at) marked;
    }

source_global : (cs : List Scope) → source cs global_var ≡ none
unfolding source
source_global [] = refl
source_global (c ∷ cs) = refl

captured_outward :
    (d : Scope) (ds : List Scope) (v v' : Variable)
    → source (d ∷ ds) v' ≡ outward (source ds v)
    → ((l i : ℕ) → source ds v ≡ place l i → captured_at ds l i ≡ true)
    → (l i : ℕ) → source (d ∷ ds) v' ≡ place l i
    → captured_at (d ∷ ds) l i ≡ true
captured_outward d ds v v' out inner l i e = elim (Option-cases (source ds v)) [
  | inl absent ↦ absurd (no_place (rw absent at (sym out ∙ e)))
  | inr ((m, j), at) ↦
      let (l_is, i_is) = place_inj (rw at at (sym out ∙ e)) in
      rw (← l_is, ← i_is) (step m j (inner m j at))
]
  where
    step : (m j : ℕ) → captured_at ds m j ≡ true → captured_at (d ∷ ds) (m + 1) j ≡ true
    step m j h = let e : m + 1 ≡ suc m = omega arith in rw e h

-- The variable is an upvalue of the function, by an entry that leads to what the enclosing functions found.
entry-Looks :
    (name : List ℕ) (c d : Scope) (cs ds : List Scope) (v : Variable) (k : ℕ) (local : Bool)
    → Resolves c.locals name (c.act_var + 1) none
    → Looks name cs false v ds
    → Grows c d
    → k < 255
    → source (d ∷ ds) (upvalue_var k) ≡ outward (source ds v)
    → Looks name (c ∷ cs) local (upvalue_var k) (d ∷ ds)
entry-Looks name c d cs ds v k local r looks g lt out = record {
  declared = rw out (outside c cs (source ds v) r looks.declared);
  small = lt;
  grows = (g, looks.grows);
  captured = λ l i e which.
      captured_outward d ds v (upvalue_var k) out (λ m j at. looks.captured m j at (inl refl)) l i
        e;
}

through-Looks :
    (name : List ℕ) (c : Scope) (cs ds : List Scope) (v : Variable) (unset local : Bool)
    → IsScope c
    → Resolves c.locals name (c.act_var + 1) none
    → Looks name cs false v ds
    → (v' : Variable) × ((scopes : List Scope) × (through c (v, unset, ds)
          ≡ some (v', unset, scopes))
        × Looks name (c ∷ cs) local v' scopes)
unfolding through source
through-Looks name c cs ds global_var unset local s r looks = (
  global_var,
  (
    c ∷ ds,
    refl,
    record {
      declared = outside c cs none r (rw (source_global ds) at looks.declared);
      small = tt;
      grows = (Grows-refl c, looks.grows);
      captured = λ l i e which. absurd (no_place e);
    },
  ),
)
through-Looks name c cs ds (local_var i) unset local s r looks =
    let (k, (d, run, lt, at, g)) = add_uv_lem c (bit_or i uv_is_local) s.few in
    (
      upvalue_var k,
      (
        d ∷ ds,
        rw run refl,
        entry-Looks name c d cs ds (local_var i) k local r looks g lt
            (source_local d ds k i looks.small at),
      ),
    )
through-Looks name c cs ds (upvalue_var j) unset local s r looks =
    let (k, (d, run, lt, at, g)) = add_uv_lem c (j + 1) s.few in
    (
      upvalue_var k,
      (
        d ∷ ds,
        rw run refl,
        entry-Looks name c d cs ds (upvalue_var j) k local r looks g lt
            (source_upvalue d ds k j looks.small at),
      ),
    )

found_below :
    {locals : List Local} {name : List ℕ} {n i : ℕ} → Resolves locals name n (some i) → i < n
found_below (found i lt e above) = lt

here_run :
    (name : List ℕ) (c : Scope) (cs : List Scope) (local : Bool) (i : ℕ)
    → resolve_local c name ≡ some i
    → var_lookup name (c ∷ cs) local
      ≡ some (local_var i, is_unset c i, (if local then c else uv_mark c i) ∷ cs)
unfolding var_lookup
here_run name c cs local i at = rw (var_lookup, at) refl

outside_run :
    (name : List ℕ) (c : Scope) (cs : List Scope) (local : Bool) (r : Variable × Bool × List Scope)
    → resolve_local c name ≡ none
    → var_lookup name cs false ≡ some r
    → var_lookup name (c ∷ cs) local ≡ through c r
unfolding var_lookup
outside_run name c cs local r absent run = rw (var_lookup, absent, run) refl

-- `var_lookup` succeeds if no function has its 255 upvalues yet. It finds the innermost declaration of the
-- name: through the upvalues of the functions in between, `OP_CLOSURE` gets at the local that the name was
-- declared as last, or the name is a global if no function declares it. A local that a function further in uses is
-- marked as captured, and what was found before stays where it was.
pub var_lookup-Looks :
    (name : List ℕ) (scopes : List Scope) (local : Bool)
    → AllScopes scopes
    → (v : Variable) × ((unset : Bool) × ((scopes' : List Scope) × (var_lookup name scopes local
            ≡ some (v, unset, scopes'))
          × Looks name scopes local v scopes'))
var_lookup-Looks name [] local s = (
  global_var,
  (
    false,
    (
      [],
      unfold var_lookup in refl,
      record {
        declared = rw (source_global []) nowhere;
        small = tt;
        grows = tt;
        captured = λ l i e which. refl;
      },
    ),
  ),
)
var_lookup-Looks name (c ∷ cs) local (s, rest) = elim (Option-cases (resolve_local c name)) [
  | inr (i, at) ↦
      let r : Resolves c.locals name (c.act_var + 1) (some i) =
        rw at at (resolve_local-Resolves c name) in
      (
        local_var i,
        (
          is_unset c i,
          (
            (if local then c else uv_mark c i) ∷ cs,
            here_run name c cs local i at,
            local-Looks name c cs i local s r (found_below r),
          ),
        ),
      )
  | inl absent ↦
      let r : Resolves c.locals name (c.act_var + 1) none =
        rw absent at (resolve_local-Resolves c name) in
      let (v, (unset, (ds, run, looks))) = var_lookup-Looks name cs false rest in
      let (v', (scopes', run', looks')) = through-Looks name c cs ds v unset local s r looks in
      (v', (unset, (scopes', outside_run name c cs local (v, unset, ds) absent run ∙ run', looks')))
]
