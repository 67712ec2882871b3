-- ===== src/Expressions/Registers.antt =====
-- src/parse.c: from `makeConstant` to `expr_toval`. The value of an expression goes to a register, with
-- the branches that wait in its two lists of jumps.
use xan.Base.{
  ℕ, ◌+◌, ◌-◌, bit_xor, Bool, true, false, not, ◌&&◌, ◌||◌, Option, none, some, ◌>>=◌, ltb, leb,
  ◌==◌, if◌then◌else◌, length,
}
use xan.Bytecode.{Endian, u8, no_reg, no_jump, opcode, rd, op_ad, setbc_op, setbc_a}
use xan.Bytecode.Opcode.{
  code, op_const_num, op_primitive, op_not, op_jump, op_jump_if_false, op_jump_if_true,
  op_copy_jump_if_false, op_copy_jump_if_true, op_mov,
}
use xan.Value.{Val, Number, Strings}
use xan.Chunk.{add_constant}
use xan.Expressions.{
  nil_extype, true_extype, false_extype, string_extype, number_extype, reloc_extype,
  nonreloc_extype, jump_extype, void_extype, Expression, Parser, expr_has_jump, is_nonreloc,
  is_jump, is_reloc, is_variable, with_reg, error, reserve, expr_free, word_at, write_word,
  jump_novalue, rounds, emit_ad, emit_aj, emit_jump, append, to_here, patch_value, expr_discharge,
}

-- The value of the expression is in the register `r`.
abbrev pub settled : {D : Type 0} → Expression D → ℕ → Bool → Expression D
settled x r assignable = record x { type = nonreloc_extype; info = r; assignable = assignable }

-- `jump_patch`, for a target in the code.
unfoldable pub jump_patch : {D : Type 0} → Endian → Parser D → ℕ → ℕ → Option (Parser D)
jump_patch e p list target =
    if target == length p.compiler.code
    then to_here e p list
    else patch_value e p list target no_reg target

-- `invertCond`: the opcodes of a comparison and of its contrary differ in the last bit.
unfoldable pub invert_cond : {D : Type 0} → Endian → Parser D → Expression D → Parser D
invert_cond e p x =
    let w = word_at p (x.info - 1) in
    write_word p (x.info - 1) (setbc_op e w (bit_xor (opcode w) 1))

module _ (N : Number) (S : Strings) (e : Endian) where
  unfoldable pub make_constant : Parser N.Double → Val N → Option (ℕ × Parser N.Double)
  make_constant p v = do
    r ← add_constant N S p.chunk v
    some (if ltb 0xffff r.0 then 0 else r.0, error (record p { chunk = r.1 }) (ltb 0xffff r.0))

  -- `exprToRegNoBranch` on a discharged expression; `none` is a failed assertion.
  unfoldable pub place :
      Parser N.Double → Expression N.Double → ℕ → Option (Expression N.Double × Parser N.Double)
  unfolding make_constant
  place p x r =
      let primitive : ℕ → Option (Expression N.Double × Parser N.Double) =
        λ n. (do q ← emit_ad e p (code op_primitive) r n; some (settled x r false, q.1)) in
      let pooled : Option (Expression N.Double × Parser N.Double) = (do
        c ← make_constant p x.v
        q ← emit_ad e c.1 (code op_const_num) r c.0
        some (settled x r false, q.1)) in
      let moved : Option (Expression N.Double × Parser N.Double) = (do
        q ← emit_ad e p (code op_mov) r x.info
        some (settled x r x.assignable, q.1)) in
      elim x.type [
        | nil_extype ↦ primitive 0
        | true_extype ↦ primitive 1
        | false_extype ↦ primitive 2
        | string_extype ↦ pooled
        | number_extype ↦ pooled
        | reloc_extype ↦
            some (settled x r false, write_word p x.info (setbc_a e (word_at p x.info) r))
        | nonreloc_extype ↦ if x.info == r then some (settled x r false, p) else moved
        | void_extype ↦ some (x, p)
        | jump_extype ↦ some (x, p)
        | _ ↦ none
      ]

  unfoldable pub expr_to_reg_no_branch :
      Parser N.Double → Expression N.Double → ℕ → Option (Expression N.Double × Parser N.Double)
  unfolding place
  expr_to_reg_no_branch p x r = do d ← expr_discharge e p x; place d.1 d.0 r

  -- The jump, the expression and the parser.
  abbrev Branch : Type 0
  Branch = ℕ × Expression N.Double × Parser N.Double

  -- `emit_branch`. A negation in front of it becomes a test for the contrary.
  unfoldable pub emit_branch : Parser N.Double → Expression N.Double → Bool → Option Branch
  unfolding expr_to_reg_no_branch
  emit_branch p x cond =
      let w = word_at p x.info in
      let contrary =
        op_ad (if cond then code op_jump_if_false else code op_jump_if_true) 0 (rd w) in
      let negated : Option Branch = (do
        j ← emit_jump e (write_word p x.info contrary) (code op_jump)
        some (j.0, x, j.1)) in
      let q = reserve p 1 in
      let tested : Option Branch = (do
        d ←
            if is_nonreloc x.type
            then some (x, p)
            else expr_to_reg_no_branch q x (u8 (q.scope.next_reg + 255))
        t ←
            emit_ad e d.1 (if cond then code op_copy_jump_if_true else code op_copy_jump_if_false)
              no_reg (d.0).info
        j ← emit_jump e t.1 (code op_jump)
        f ← expr_free j.1 d.0
        some (j.0, d.0, f)) in
      if is_reloc x.type && opcode w == code op_not then negated else tested

  unfoldable pub emit_branch_true :
      Parser N.Double → Expression N.Double → Option (Expression N.Double × Parser N.Double)
  unfolding emit_branch
  emit_branch_true p x = do
    d ← expr_discharge e p x
    b ←
        if is_jump (d.0).type
        then some ((d.0).info, d.0, invert_cond e d.1 d.0)
        else emit_branch d.1 d.0 false
    l ← append e b.2 (b.1).false_jump b.0
    q ← to_here e l.1 (b.1).true_jump
    some (record b.1 { false_jump = l.0; true_jump = no_jump }, q)

  unfoldable pub emit_branch_false :
      Parser N.Double → Expression N.Double → Option (Expression N.Double × Parser N.Double)
  unfolding emit_branch
  emit_branch_false p x = do
    d ← expr_discharge e p x
    b ← if is_jump (d.0).type then some ((d.0).info, d.0, d.1) else emit_branch d.1 d.0 true
    l ← append e b.2 (b.1).true_jump b.0
    q ← to_here e l.1 (b.1).false_jump
    some (record b.1 { true_jump = l.0; false_jump = no_jump }, q)

  -- In `exprToReg`, the code that puts `false` or `true` in the register, for branches that do not
  -- bring a value: where it stands, for both.
  unfoldable pub emit_truth : Parser N.Double → Bool → ℕ → Option (ℕ × ℕ × Parser N.Double)
  emit_truth p jumps r = do
    v ← if jumps then some (no_jump, p) else emit_jump e p (code op_jump)
    f ← emit_ad e v.1 (code op_primitive) r 2
    j ← emit_aj e f.1 (code op_jump) (f.1).scope.next_reg 1
    t ← emit_ad e j.1 (code op_primitive) r 1
    q ← to_here e t.1 v.0
    some (f.0, t.0, q)

  unfoldable pub settle_jumps : Parser N.Double → Expression N.Double → ℕ → Option (Parser N.Double)
  unfolding emit_truth
  settle_jumps p x r = do
    let novalue = λ (list : ℕ). jump_novalue (rounds e p) p.compiler.code list
    t ←
        if novalue x.true_jump || novalue x.false_jump
        then emit_truth p (is_jump x.type) r
        else some (no_jump, no_jump, p)
    let end = length (t.2).compiler.code
    let q : Parser N.Double = record t.2 { compiler = record (t.2).compiler { last_target = end } }
    f ← patch_value e q x.false_jump end r t.0
    patch_value e f x.true_jump end r t.1

  unfoldable pub expr_to_reg :
      Parser N.Double → Expression N.Double → ℕ → Option (Expression N.Double × Parser N.Double)
  unfolding expr_to_reg_no_branch settle_jumps
  expr_to_reg p x r = do
    d ← expr_to_reg_no_branch p x r
    l ←
        if is_jump (d.0).type
        then append e d.1 (d.0).true_jump (d.0).info
        else some ((d.0).true_jump, d.1)
    let y : Expression N.Double = record d.0 { true_jump = l.0 }
    q ← if expr_has_jump y then settle_jumps l.1 y r else some l.1
    some (
      record y {
        true_jump = no_jump;
        false_jump = no_jump;
        info = with_reg y.info r;
        assignable = y.assignable && is_variable y.type;
        type = nonreloc_extype;
      },
      q,
    )

  unfoldable pub expr_next_reg :
      Parser N.Double → Expression N.Double → Option (Expression N.Double × Parser N.Double)
  unfolding expr_to_reg
  expr_next_reg p x = do
    d ← expr_discharge e p x
    f ← expr_free d.1 d.0
    let q = reserve f 1
    expr_to_reg q d.0 (u8 (q.scope.next_reg + 255))

  -- The register is the `Reg` of the expression.
  unfoldable pub expr_any_reg :
      Parser N.Double → Expression N.Double → Option (Expression N.Double × Parser N.Double)
  unfolding expr_next_reg
  expr_any_reg p x = do
    d ← expr_discharge e p x
    if not (is_nonreloc (d.0).type)
        then expr_next_reg d.1 d.0
        else if not (expr_has_jump d.0)
        then some d
        else if leb (d.1).scope.act_var (d.0).info
        then expr_to_reg d.1 d.0 (u8 (d.0).info)
        else expr_next_reg d.1 d.0

  unfoldable pub expr_toval :
      Parser N.Double → Expression N.Double → Option (Expression N.Double × Parser N.Double)
  unfolding expr_any_reg
  expr_toval p x = if expr_has_jump x then expr_any_reg p x else expr_discharge e p x
