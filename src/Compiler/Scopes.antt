-- ===== src/Compiler/Scopes.antt =====
-- src/parse.c: the local variables of the functions that are being compiled, and what a name refers
-- to. A name is the text of its token; a `Compiler` has 256 places for locals, the first of which is
-- for `this`, and the local at `i` lives in the register `i - 1`.
pub mod Names
pub mod Entries
pub mod Lookup
pub mod Blocks
pub mod Declarations
pub mod Registers
use xan.Base.{
  ℕ, zero, suc, ◌+◌, ◌-◌, ◌/◌, ◌%◌, ◌^◌, bit_or, Bool, true, false, ◌&&◌, ◌||◌, List, [], ◌∷◌, ◌++◌,
  Option, none, some, ◌>>=◌, if◌then◌else◌, ltb, leb, ◌==◌, get_or, set, length,
}
use xan.Base.Bytes.{same_bytes}
use xan.Bytecode.{u8, max_reg, op_ad}
use xan.Bytecode.Opcode.{code, op_close_upvalues}

-- `Local`; a depth of -1 is `none`.
pub record Local : Type 0 where
  pub name : List ℕ
  pub depth : Option ℕ
  pub is_captured : Bool

-- What name resolution uses of a `Compiler`: `upvalues` has `uvCount` entries.
pub record Scope : Type 0 where
  pub locals : List Local
  pub upvalues : List ℕ
  pub scope_depth : ℕ
  pub act_var : ℕ
  pub next_reg : ℕ
  pub max_reg : ℕ

abbrev pub no_local : Local
no_local = record { name = []; depth = none; is_captured = false }

abbrev pub identifiers_equal : List ℕ → List ℕ → Bool
identifiers_equal a b = (length a == length b) && same_bytes a b

-- The loop of `resolveLocal` over the first `n` locals, from the last one down.
unfoldable pub resolve_from : List Local → List ℕ → ℕ → Option ℕ
resolve_from locals name zero = none
resolve_from locals name (suc i) =
    let below = resolve_from locals name i in
    if identifiers_equal name (get_or locals i no_local).name then some i else below

unfoldable pub resolve_local : Scope → List ℕ → Option ℕ
unfolding resolve_from
resolve_local c name = resolve_from c.locals name (c.act_var + 1)

-- The error of `resolveLocal`: the variable has no value yet.
abbrev pub is_unset : Scope → ℕ → Bool
is_unset c i = elim (get_or c.locals i no_local).depth [ none ↦ true | some d ↦ false ]

abbrev pub uv_is_local : ℕ
uv_is_local = 0x100

abbrev pub uv_mark : Scope → ℕ → Scope
uv_mark c i = record c {
  locals = set c.locals i (record (get_or c.locals i no_local) { is_captured = true });
}

abbrev pub find_uv : List ℕ → ℕ → Option ℕ
find_uv [] x = none
find_uv (u ∷ us) x =
    let later : Option ℕ = elim (find_uv us x) [ none ↦ none | some i ↦ some (suc i) ] in
    if u == x then some 0 else later

-- `none` is the error for too many upvalues.
unfoldable pub add_uv : Scope → ℕ → Option (ℕ × Scope)
add_uv c larg = elim (find_uv c.upvalues larg) [
  | some i ↦ some (i, c)
  | none ↦
      if length c.upvalues == 256
      then none
      else some (length c.upvalues, record c { upvalues = c.upvalues ++ larg ∷ [] })
]

unfoldable pub var_lookup_uv : Scope → ℕ → Bool → Option (ℕ × Scope)
unfolding add_uv
var_lookup_uv c arg is_local = add_uv c (if is_local then bit_or arg uv_is_local else arg)

-- What a name refers to in a function: a local by its place, an upvalue by its index, or a global.
pub data Variable : Type 0 where
  local_var : ℕ → Variable
  upvalue_var : ℕ → Variable
  global_var : Variable

-- What the function `c` makes of the variable that its enclosing functions have found.
unfoldable pub through :
    Scope → Variable × Bool × List Scope → Option (Variable × Bool × List Scope)
unfolding var_lookup_uv
through c (global_var, unset, cs) = some (global_var, unset, c ∷ cs)
through c (local_var i, unset, cs) = do
  r ← var_lookup_uv c i true
  some (upvalue_var r.0, unset, r.1 ∷ cs)
through c (upvalue_var k, unset, cs) = do
  r ← var_lookup_uv c (k + 1) false
  some (upvalue_var r.0, unset, r.1 ∷ cs)

-- `var_lookup` in the innermost of the functions: the variable, whether it is read before it has
-- a value, and the functions.
unfoldable pub var_lookup : List ℕ → List Scope → Bool → Option (Variable × Bool × List Scope)
unfolding resolve_local through
var_lookup name [] local = some (global_var, false, [])
var_lookup name (c ∷ cs) local =
    let enclosing = var_lookup name cs false in
    elim (resolve_local c name) [
      | some i ↦ some (local_var i, is_unset c i, (if local then c else uv_mark c i) ∷ cs)
      | none ↦ do r ← enclosing; through c r
    ]

-- `OP_CLOSURE` in src/vm.c: how many functions out, and at which place, a variable is. An entry of `upvalues` has the
-- bit `UV_IS_LOCAL` for a local of the enclosing function, or else an upvalue of that function plus 1.
unfoldable pub source : List Scope → Variable → Option (ℕ × ℕ)
source [] v = none
source (c ∷ cs) global_var = none
source (c ∷ cs) (local_var i) = some (0, i)
source (c ∷ cs) (upvalue_var k) =
    let uv = get_or c.upvalues k 0 in
    let found : Option (ℕ × ℕ) =
      source cs
        (if uv / 2 ^ 8 % 2 == 1 then local_var (uv % 2 ^ 8) else upvalue_var (uv % 2 ^ 8 - 1)) in
    elim found [ none ↦ none | some p ↦ some (p.0 + 1, p.1) ]

-- A local of the current block, for the loops of `localIsCaptured` and `endScope`.
abbrev pub is_deep : Local → ℕ → Bool
is_deep l scope_depth = elim l.depth [ none ↦ false | some d ↦ leb scope_depth d ]

abbrev pub begin_scope : Scope → Scope
begin_scope c = record c { scope_depth = c.scope_depth + 1 }

unfoldable pub captured_from : List Local → ℕ → ℕ → Bool
captured_from locals scope_depth zero = false
captured_from locals scope_depth (suc i) =
    let l = get_or locals i no_local in
    let rest = captured_from locals scope_depth i in
    if is_deep l scope_depth then l.is_captured || rest else false

unfoldable pub local_is_captured : Scope → Bool
unfolding captured_from
local_is_captured c = captured_from c.locals c.scope_depth (c.act_var + 1)

-- How many of the first `n` locals are left when those of the block are gone.
unfoldable pub left_from : List Local → ℕ → ℕ → ℕ
left_from locals scope_depth zero = zero
left_from locals scope_depth (suc i) =
    let rest = left_from locals scope_depth i in
    if is_deep (get_or locals i no_local) scope_depth then rest else suc i

-- The function, and the instruction that is emitted, if one is.
unfoldable pub end_scope : Scope → Bool → Scope × Option ℕ
unfolding left_from
end_scope c close_upvalues =
    let act_var = u8 (left_from c.locals c.scope_depth (c.act_var + 1) + max_reg) in
    (
      record c { act_var = act_var; next_reg = act_var; scope_depth = c.scope_depth - 1 },
      if close_upvalues then some (op_ad (code op_close_upvalues) act_var 0) else none,
    )

-- Whether an error is reported, the place of the local, and the function.
unfoldable pub add_local : Scope → List ℕ → Bool × ℕ × Scope
add_local c name =
    let act_var = u8 (c.act_var + 1) in
    (
      c.act_var + 1 == 256,
      act_var,
      record c {
        act_var = act_var;
        locals = set c.locals act_var (record { name = name; depth = none; is_captured = false });
      },
    )

-- The loop of `declareVariable`: whether the block has a local of the name.
unfoldable pub clash_from : List Local → List ℕ → ℕ → ℕ → Bool
clash_from locals name scope_depth zero = false
clash_from locals name scope_depth (suc i) =
    let l = get_or locals i no_local in
    let rest = clash_from locals name scope_depth i in
    let outer : Bool = elim l.depth [ none ↦ false | some d ↦ ltb d scope_depth ] in
    if outer then false else identifiers_equal name l.name || rest

-- `none` is a global variable.
unfoldable pub declare_variable : Scope → List ℕ → Option (Bool × ℕ × Scope)
unfolding clash_from add_local
declare_variable c name =
    let added = add_local c name in
    if c.scope_depth == 0
    then none
    else some (clash_from c.locals name c.scope_depth (c.act_var + 1) || added.0, added.1, added.2)

unfoldable pub mark_initialized : Scope → Scope
mark_initialized c =
    let l : Local = record (get_or c.locals c.act_var no_local) { depth = some c.scope_depth } in
    if c.scope_depth == 0 then c else record c { locals = set c.locals c.act_var l }

-- `none` is a failed assertion: a register that is freed is the last one. The register is an `int16_t`.
unfoldable pub reg_free : Scope → ℕ → Option Scope
reg_free c r =
    let freed = record c { next_reg = c.next_reg - 1 } in
    if r == 2 ^ 16 - 1 || r == 255
    then some c
    else if leb c.act_var r
    then (if c.next_reg == r + 1 then some freed else none)
    else some c

unfoldable pub reg_bump : Scope → ℕ → Scope
reg_bump c n =
    let sz = u8 (c.next_reg + n) in if ltb c.max_reg sz then record c { max_reg = sz } else c

unfoldable pub reg_reserve : Scope → ℕ → Scope
unfolding reg_bump
reg_reserve c n = record (reg_bump c n) { next_reg = u8 (c.next_reg + n) }
