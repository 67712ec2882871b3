-- ===== src/Compiler/Scopes/Declarations.antt =====
-- src/parse.c, `declareVariable`, `addLocal` and `markInitialized`: a new local variable.
use native.Mathlib.Decide.{ℕ_discrete}
use xan.Base.{
  ℕ, suc, ◌+◌, ◌<◌, ◌≡◌, ◌≢◌, refl, sym, ◌∙◌, arith, Bool, true, false, ◌||◌, List, Option, none,
  some, ◌==◌, get_or, get_or-set, set, length, length-set,
}
use xan.Bytecode.{u8}
use xan.Compiler.Scopes.{
  Local, Scope, no_local, clash_from, add_local, declare_variable, mark_initialized, resolve_local,
}
use xan.Compiler.Scopes.Names.{
  Resolves, found, resolve_local-Resolves, Resolves-later, Resolves-same, Resolves-unique,
}

-- The function when a variable is declared at the next place, before and after it has its value.
abbrev pub declared_as : Scope → List ℕ → Option ℕ → Scope
declared_as c name depth = record c {
  act_var = c.act_var + 1;
  locals =
      set c.locals (c.act_var + 1) (record { name = name; depth = depth; is_captured = false });
}

or_false : (b : Bool) → (b || false) ≡ b
or_false true = refl
or_false false = refl

declare_variable_lem :
    (c : Scope) (name : List ℕ)
    → 0 < c.scope_depth
    → c.act_var + 1 < 256
    → declare_variable c name
      ≡ some (
        clash_from c.locals name c.scope_depth (c.act_var + 1),
        c.act_var + 1,
        declared_as c name none,
      )
unfolding declare_variable add_local
declare_variable_lem c name deep room =
    let test : (c.scope_depth == 0) ≡ false = ground arith in
    let full : (c.act_var + 1 == 256) ≡ false = ground arith in
    let place : u8 (c.act_var + 1) ≡ c.act_var + 1 = omega arith in
    rw (test, full, place)
      (rw (or_false (clash_from c.locals name c.scope_depth (c.act_var + 1))) refl)

abbrev name_at : Scope → ℕ → List ℕ
name_at c j = (get_or c.locals j no_local).name

-- A variable that gets its value keeps its name.
name_at-mark_initialized :
    (c : Scope) (j : ℕ)
    → c.act_var < length c.locals
    → (name_at (mark_initialized c) j ≡ name_at c j) × ((mark_initialized c).act_var ≡ c.act_var)
unfolding mark_initialized
name_at-mark_initialized c j inside = elim (ℕ_discrete c.scope_depth 0) [
  | yes e ↦ let test : (c.scope_depth == 0) ≡ true = ground arith in rw test (refl, refl)
  | no ne ↦
      let test : (c.scope_depth == 0) ≡ false = ground arith in
      let l : Local = record (get_or c.locals c.act_var no_local) { depth = some c.scope_depth } in
      rw test (ground (arith, get_or-set c.locals c.act_var j l no_local inside), refl)
]

with_bound :
    (locals : List Local) (name : List ℕ) (r : Option ℕ) (n m : ℕ)
    → n ≡ m
    → Resolves locals name n r
    → Resolves locals name m r
with_bound locals name r n m e h = rw (← e) h

-- What a name refers to in a function whose last active local is new.
new_local_lem :
    (c c' : Scope) (name : List ℕ)
    → c'.act_var ≡ c.act_var + 1
    → name_at c' (c.act_var + 1) ≡ name
    → ((j : ℕ) → j < c.act_var + 1 → name_at c' j ≡ name_at c j)
    → (resolve_local c' name ≡ some (c.act_var + 1))
      × ((other : List ℕ) → other ≢ name → resolve_local c' other ≡ resolve_local c other)
new_local_lem c c' name active new old =
    let n = c.act_var + 1 in
    let height : c'.act_var + 1 ≡ suc n = omega (arith, active) in
    (
      Resolves-unique c'.locals name (suc n) (resolve_local c' name) (some n)
          (with_bound c'.locals name _ _ (suc n) height (resolve_local-Resolves c' name))
          (found n (omega arith) new (λ j gt le. absurd (omega arith))),
      λ other ne.
          Resolves-unique c'.locals other (suc n) (resolve_local c' other) (resolve_local c other)
            (with_bound c'.locals other _ _ (suc n) height (resolve_local-Resolves c' other))
            (Resolves-later c'.locals other n (resolve_local c other) (λ e. ne (sym e ∙ new))
              (Resolves-same c.locals c'.locals other n (resolve_local c other) old
                (resolve_local-Resolves c other))),
    )

-- `declareVariable` in a block and then `markInitialized`, where there is room for a local: the name refers to the new
-- local, at the next place, and every other name to what it referred to before.
pub declare_variable-resolve_local :
    (c : Scope) (name : List ℕ)
    → 0 < c.scope_depth
    → c.act_var + 1 < 256
    → length c.locals ≡ 256
    → (error : Bool) × ((c' : Scope) × (declare_variable c name ≡ some (error, c.act_var + 1, c'))
        × ((mark_initialized c').act_var ≡ c.act_var + 1)
        × (resolve_local (mark_initialized c') name ≡ some (c.act_var + 1))
        × ((other : List ℕ)
            → other ≢ name
            → resolve_local (mark_initialized c') other ≡ resolve_local c other))
declare_variable-resolve_local c name deep room places =
    let c' = declared_as c name none in
    let l : Local = record { name = name; depth = none; is_captured = false } in
    let inside : c.act_var + 1 < length c.locals = rw places room in
    let same = length-set c.locals (c.act_var + 1) l in
    let at = λ (j : ℕ). get_or-set c.locals (c.act_var + 1) j l no_local inside in
    let marked = λ (j : ℕ). name_at-mark_initialized c' j (rw same inside) in
    let (mine, others) =
      new_local_lem c (mark_initialized c') name (marked 0).1
        ((marked (c.act_var + 1)).0 ∙ ground (arith, at (c.act_var + 1)))
        (λ j lt. (marked j).0 ∙ ground (arith, at j)) in
    (
      clash_from c.locals name c.scope_depth (c.act_var + 1),
      (c', declare_variable_lem c name deep room, (marked 0).1, mine, others),
    )
