-- ===== src/Tests/Naming.antt =====
-- Names in src/parse.c: a function with the locals `a` and `b` in a block, and a function inside it.
use xan.Base.{
  ℕ, ◌≡◌, ◌≢◌, refl, arith, Bool, true, false, List, [], ◌∷◌, some, replicate, length-replicate,
}
use xan.Compiler.Scopes.{
  Local, Scope, no_local, Variable, var_lookup, end_scope, local_is_captured, declare_variable,
  mark_initialized, resolve_local,
}
use xan.Compiler.Scopes.Entries.{IsScope, Looks}
use xan.Compiler.Scopes.Lookup.{var_lookup-Looks}
use xan.Compiler.Scopes.Blocks.{IsBlock, Ends, end_scope-Ends}
use xan.Compiler.Scopes.Declarations.{declare_variable-resolve_local}

abbrev name_a : List ℕ
name_a = 97 ∷ []

abbrev name_b : List ℕ
name_b = 98 ∷ []

abbrev local_at : List ℕ → ℕ → Bool → Local
local_at name depth captured = record { name = name; depth = some depth; is_captured = captured }

abbrev outer_scope : Scope
outer_scope = record {
  locals =
      local_at [] 0 false
      ∷ local_at name_a 1 false
      ∷ local_at name_b 2 true
      ∷ replicate 253 no_local;
  upvalues = [];
  scope_depth = 2;
  act_var = 2;
  next_reg = 2;
  max_reg = 3;
}

abbrev inner_scope : Scope
inner_scope = record {
  locals = local_at [] 0 false ∷ replicate 255 no_local;
  upvalues = [];
  scope_depth = 1;
  act_var = 0;
  next_reg = 0;
  max_reg = 1;
}

outer_scope-IsScope : IsScope outer_scope
outer_scope-IsScope = record {
  places = omega (arith, length-replicate 253 no_local);
  active = omega arith;
  few = omega arith;
}

inner_scope-IsScope : IsScope inner_scope
inner_scope-IsScope = record {
  places = omega (arith, length-replicate 255 no_local);
  active = omega arith;
  few = omega arith;
}

var_lookup-Looks_example :
    (v : Variable) × ((unset : Bool) × ((scopes' : List Scope) × (var_lookup name_b
            (inner_scope ∷ outer_scope ∷ [])
            true
          ≡ some (v, unset, scopes'))
        × Looks name_b (inner_scope ∷ outer_scope ∷ []) true v scopes'))
var_lookup-Looks_example =
    var_lookup-Looks name_b (inner_scope ∷ outer_scope ∷ []) true
      (inner_scope-IsScope, (outer_scope-IsScope, tt))

outer_scope-IsBlock : IsBlock outer_scope 2
outer_scope-IsBlock = record {
  behind_this = omega arith;
  at_most = omega arith;
  inner = λ i lo hi. let e : i ≡ 2 = omega arith in rw e refl;
  outer = refl;
  small = omega arith;
}

end_scope-Ends_example :
    Ends outer_scope 2
      (end_scope outer_scope (local_is_captured outer_scope)).0
      (end_scope outer_scope (local_is_captured outer_scope)).1
end_scope-Ends_example = end_scope-Ends outer_scope 2 outer_scope-IsBlock

declare_variable-resolve_local_example :
    (error : Bool) × ((c' : Scope) × (declare_variable outer_scope name_a ≡ some (error, 3, c'))
      × ((mark_initialized c').act_var ≡ 3)
      × (resolve_local (mark_initialized c') name_a ≡ some 3)
      × ((other : List ℕ)
          → other ≢ name_a
          → resolve_local (mark_initialized c') other ≡ resolve_local outer_scope other))
declare_variable-resolve_local_example =
    declare_variable-resolve_local outer_scope name_a (omega arith) (omega arith)
      outer_scope-IsScope.places
