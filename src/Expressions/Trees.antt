-- ===== src/Expressions/Trees.antt =====
-- Expressions as trees: what they mean, and the calls of src/parse.c that `binary`, `unary` and
-- `primaryExpression` make for them, with the tokens left out.
use xan.Base.{ℕ, ◌+◌, ◌<◌, Bool, true, false, not, List, Option, none, some, ◌>>=◌, get_or, max}
use xan.Bytecode.{Endian, no_jump}
use xan.Bytecode.Opcode.{
  ByteCode, code, op_negate, op_not, op_equal, op_neq, op_greater, op_leq, op_geq, op_less,
  op_addvv, op_subvv, op_mulvv, op_divvv, op_modvv,
}
use xan.Value.{Val, nil, bool, number, Number, Strings, values_equal}
use xan.Run.{Arithmetic, is_falsey}
use xan.Expressions.{
  ExpressionType, nil_extype, true_extype, false_extype, local_extype, Expression, Parser,
  expr_init,
}
use xan.Expressions.Operators.{emit_binop_left, emit_binop, emit_unary}

pub data Operator : Type 0 where
  add subtract multiply divide modulo equal unequal less at_most greater at_least : Operator

pub data Literal : Type 0 where
  literal_nil literal_true literal_false : Literal

-- A local is its register.
pub data Tree : Type 0 where
  literal : Literal → Tree
  variable : ℕ → Tree
  minus : Tree → Tree
  contrary : Tree → Tree
  binary : Operator → Tree → Tree → Tree

-- The `switch` of `binary`.
abbrev pub instruction : Operator → ByteCode
instruction add = op_addvv
instruction subtract = op_subvv
instruction multiply = op_mulvv
instruction divide = op_divvv
instruction modulo = op_modvv
instruction equal = op_equal
instruction unequal = op_neq
instruction less = op_less
instruction at_most = op_leq
instruction greater = op_greater
instruction at_least = op_geq

-- The `switch` of `literal`.
abbrev pub literal_type : Literal → ExpressionType
literal_type literal_nil = nil_extype
literal_type literal_true = true_extype
literal_type literal_false = false_extype

-- How many registers the values of a tree and its parts take at once.
abbrev pub height : Tree → ℕ
height (literal l) = 1
height (variable r) = 1
height (minus t) = height t
height (contrary t) = height t
height (binary o a b) = max (height a) (height b + 1)

-- The variables of the tree are locals that have a register.
abbrev pub Uses : ℕ → Tree → Type 0
Uses n (literal l) = Unit
Uses n (variable r) = r < n
Uses n (minus t) = Uses n t
Uses n (contrary t) = Uses n t
Uses n (binary o a b) = Uses n a × Uses n b

abbrev pub blank : {D : Type 0} → Expression D
blank = record {
  type = nil_extype;
  info = 0;
  aux = 0;
  v = nil;
  assignable = false;
  true_jump = no_jump;
  false_jump = no_jump;
}

module _ (N : Number) (S : Strings) (e : Endian) where
  unfoldable pub generate : Parser N.Double → Tree → Option (Expression N.Double × Parser N.Double)
  generate p (literal l) = some (expr_init blank (literal_type l) 0, p)
  generate p (variable r) = some (expr_init blank local_extype r, p)
  generate p (minus t) = do d ← generate p t; emit_unary N S e d.1 (code op_negate) d.0
  generate p (contrary t) = do d ← generate p t; emit_unary N S e d.1 (code op_not) d.0
  generate p (binary o a b) = do
    d ← generate p a
    l ← emit_binop_left N S e d.1 (code (instruction o)) d.0
    r ← generate l.1 b
    emit_binop N S e r.1 (code (instruction o)) l.0 r.0

module _ (N : Number) (M : Arithmetic N.Double) (is_empty : ℕ → Bool) where
  -- An operator that wants two numbers.
  abbrev pub on_numbers : (N.Double → N.Double → Val N) → Val N → Val N → Option (Val N)
  on_numbers f (number x) (number y) = some (f x y)
  on_numbers f _ _ = none

  -- The value of an operation; `none` is an exception, or two strings.
  unfoldable pub apply : Operator → Val N → Val N → Option (Val N)
  apply add a b = on_numbers (λ x y. number (M.plus x y)) a b
  apply subtract a b = on_numbers (λ x y. number (M.minus x y)) a b
  apply multiply a b = on_numbers (λ x y. number (M.times x y)) a b
  apply divide a b = on_numbers (λ x y. number (M.divided x y)) a b
  apply modulo a b = on_numbers (λ x y. number (M.fmod x y)) a b
  apply equal a b = some (bool (values_equal N a b))
  apply unequal a b = some (bool (not (values_equal N a b)))
  apply less a b = on_numbers (λ x y. bool (M.less x y)) a b
  apply at_most a b = on_numbers (λ x y. bool (M.at_most x y)) a b
  apply greater a b = on_numbers (λ x y. bool (M.less y x)) a b
  apply at_least a b = on_numbers (λ x y. bool (M.at_most y x)) a b

  abbrev pub literal_value : Literal → Val N
  literal_value literal_nil = nil
  literal_value literal_true = bool true
  literal_value literal_false = bool false

  abbrev pub negated : Val N → Option (Val N)
  negated (number x) = some (number (M.negated x))
  negated _ = none

  -- The value of a tree where the registers are `regs`.
  unfoldable pub evaluate : List (Val N) → Tree → Option (Val N)
  evaluate regs (literal l) = some (literal_value l)
  evaluate regs (variable r) = some (get_or regs r nil)
  evaluate regs (minus t) = do v ← evaluate regs t; negated v
  evaluate regs (contrary t) = do v ← evaluate regs t; some (bool (is_falsey is_empty v))
  evaluate regs (binary o a b) = do v ← evaluate regs a; w ← evaluate regs b; apply o v w
