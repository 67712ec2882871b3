-- ===== src/Expressions/Operators.antt =====
-- src/parse.c: the code for operators, and for the assignment to a variable, property or subscript.
use xan.Base.{
  ℕ, ◌+◌, ◌-◌, ◌^◌, Bool, false, ◌&&◌, Option, none, some, ◌>>=◌, ltb, leb, ◌==◌, if◌then◌else◌,
}
use xan.Bytecode.{Endian, u8, u16, max_reg}
use xan.Bytecode.Opcode.{
  code, op_addvv, op_modvv, op_addvk, op_copy_jump_if_false, op_copy_jump_if_true, op_set_upval,
  op_set_global, op_set_property, op_set_propertyk, op_set_subscript,
}
use xan.Value.{Number, Strings}
use xan.Chunk.{add_constant}
use xan.Expressions.{
  local_extype, upval_extype, global_extype, indexed_extype, subscript_extype, reloc_extype,
  nonreloc_extype, Expression, Parser, is_nonreloc, is_pooled, expr_init, free, expr_free, emit_ad,
  emit_abc, append, relocated, expr_discharge,
}
use xan.Expressions.Registers.{
  expr_to_reg, expr_any_reg, expr_toval, emit_branch_true, emit_branch_false,
}

-- The numbers of `OP_OR` and `OP_AND`, which the parser borrows.
abbrev pub code_or : ℕ
unfolding code
code_or = code op_copy_jump_if_false

abbrev pub code_and : ℕ
unfolding code
code_and = code op_copy_jump_if_true

-- `nextReg--` for an operand in the last register, an `int16_t`.
abbrev pub release : {D : Type 0} → Parser D → Expression D → Parser D
release {D = D} p x =
    let lower : Parser D = record p {
      scope = record p.scope { next_reg = u8 (p.scope.next_reg + 255) };
    } in
    if is_nonreloc x.type && leb p.scope.act_var (u16 x.info) && ltb (u16 x.info) (2 ^ 15)
    then lower
    else p

module _ (N : Number) (S : Strings) (e : Endian) where
  -- The second operand of an arithmetic operator: its operand field, the opcode, the expression.
  unfoldable pub operand :
      Parser N.Double
      → ℕ
      → Expression N.Double
      → Option (ℕ × ℕ × Expression N.Double × Parser N.Double)
  operand p op x =
      let in_register =
        λ (p : Parser N.Double). (do r ← expr_any_reg N S e p x; some ((r.0).info, op, r.0, r.1)) in
      let pooled : Option (ℕ × ℕ × Expression N.Double × Parser N.Double) = (do
        c ← add_constant N S p.chunk x.v
        if leb c.0 max_reg
            then some (c.0, op + (code op_addvk - code op_addvv), x, record p { chunk = c.1 })
            else in_register (record p { chunk = c.1 })) in
      if is_pooled x.type then pooled else in_register p

  unfoldable pub emit_arith :
      Parser N.Double
      → ℕ
      → Expression N.Double
      → Expression N.Double
      → Option (Expression N.Double × Parser N.Double)
  unfolding operand
  emit_arith p op e1 e2 = do
    v2 ← expr_toval N S e p e2
    c ← operand v2.1 op v2.0
    v1 ← expr_toval N S e c.3 e1
    b ← expr_any_reg N S e v1.1 v1.0
    r ← emit_abc e (release (release b.1 b.0) c.2) c.1 0 (b.0).info c.0
    some (relocated b.0 r)

  unfoldable pub emit_comp :
      Parser N.Double
      → ℕ
      → Expression N.Double
      → Expression N.Double
      → Option (Expression N.Double × Parser N.Double)
  emit_comp p op e1 e2 = do
    v1 ← expr_toval N S e p e1
    b ← expr_any_reg N S e v1.1 v1.0
    v2 ← expr_toval N S e b.1 e2
    c ← expr_any_reg N S e v2.1 v2.0
    r ← emit_abc e (release (release c.1 b.0) c.0) op 0 (b.0).info (c.0).info
    some (relocated b.0 r)

  unfoldable pub emit_binop_left :
      Parser N.Double → ℕ → Expression N.Double → Option (Expression N.Double × Parser N.Double)
  emit_binop_left p op x =
      if op == code_and
      then emit_branch_true N S e p x
      else if op == code_or
      then emit_branch_false N S e p x
      else expr_any_reg N S e p x

  -- The left operand takes the place of the right one; only its branches are left of it.
  unfoldable pub emit_binop :
      Parser N.Double
      → ℕ
      → Expression N.Double
      → Expression N.Double
      → Option (Expression N.Double × Parser N.Double)
  unfolding emit_arith emit_comp
  emit_binop p op e1 e2 =
      let conjunction : Option (Expression N.Double × Parser N.Double) = (do
        d ← expr_discharge e p e2
        l ← append e d.1 (d.0).false_jump e1.false_jump
        some (record d.0 { false_jump = l.0 }, l.1)) in
      let disjunction : Option (Expression N.Double × Parser N.Double) = (do
        d ← expr_discharge e p e2
        l ← append e d.1 (d.0).true_jump e1.true_jump
        some (record d.0 { true_jump = l.0 }, l.1)) in
      if leb (code op_addvv) op && leb op (code op_modvv)
      then emit_arith p op e1 e2
      else if op == code_and
      then conjunction
      else if op == code_or
      then disjunction
      else emit_comp p op e1 e2

  -- The end of `unary`, for the operator `op`.
  unfoldable pub emit_unary :
      Parser N.Double → ℕ → Expression N.Double → Option (Expression N.Double × Parser N.Double)
  emit_unary p op x = do
    d ← expr_any_reg N S e p x
    f ← expr_free d.1 d.0
    r ← emit_ad e f op 0 (u8 (d.0).info)
    some (expr_init d.0 reloc_extype r.0, r.1)

  abbrev stored : Expression N.Double → ℕ → Parser N.Double → Expression N.Double × Parser N.Double
  stored variable r p = (record variable { type = nonreloc_extype; info = r }, p)

  -- `emit_store` to a property or subscript.
  unfoldable pub store_indexed :
      Parser N.Double
      → Expression N.Double
      → Expression N.Double
      → Bool
      → ℕ
      → Option (Expression N.Double × Parser N.Double)
  store_indexed p variable x keyed op =
      let named : Option (Expression N.Double × Parser N.Double) = (do
        a ← expr_any_reg N S e p x
        r ←
            emit_abc e a.1 (code op_set_propertyk) (a.0).info variable.info
              (2 ^ 32 - 1 - variable.aux)
        some (stored variable (u8 (a.0).info) r.1)) in
      let other : Option (Expression N.Double × Parser N.Double) = (do
        a ← expr_any_reg N S e p x
        let ra = u8 (a.0).info
        f ←
            if is_nonreloc (a.0).type && leb (a.1).scope.act_var ra && leb ra variable.aux
            then free a.1 variable.aux
            else some a.1
        r ← emit_abc e f op ra variable.info variable.aux
        some (stored variable ra r.1)) in
      if keyed then named else other

  -- `none` is a failed assertion.
  unfoldable pub emit_store :
      Parser N.Double
      → Expression N.Double
      → Expression N.Double
      → Option (Expression N.Double × Parser N.Double)
  unfolding store_indexed
  emit_store p variable x = elim variable.type [
    | local_extype ↦ do
      d ← expr_to_reg N S e p x (u8 variable.info)
      some (stored variable (d.0).info d.1)
    | upval_extype ↦ do
      d ← expr_toval N S e p x
      a ← expr_any_reg N S e d.1 d.0
      r ← emit_ad e a.1 (code op_set_upval) variable.info (u8 (a.0).info)
      some (stored variable (a.0).info r.1)
    | global_extype ↦ do
      a ← expr_any_reg N S e p x
      r ← emit_ad e a.1 (code op_set_global) (a.0).info variable.info
      some (stored variable (a.0).info r.1)
    | indexed_extype ↦ store_indexed p variable x (leb (2 ^ 31) variable.aux) (code op_set_property)
    | subscript_extype ↦ store_indexed p variable x false (code op_set_subscript)
    | _ ↦ none
  ]
