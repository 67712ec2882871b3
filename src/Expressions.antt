-- ===== src/Expressions.antt =====
-- src/parse.c: expression descriptions, and the code that puts their values in registers.
pub mod Registers
pub mod Operators
pub mod Trees
pub mod Steps
pub mod Growth
pub mod Places
pub mod Deliver
pub mod Settle
pub mod AnyRegister
pub mod Operands
pub mod Unary
pub mod Emitted
pub mod Binary
pub mod Fits
pub mod Generate
use xan.Base.{
  ℕ, zero, suc, ◌+◌, ◌-◌, ◌*◌, ◌/◌, ◌%◌, ◌^◌, bit_xor, Bool, true, false, ◌&&◌, ◌||◌, not, List, [],
  ◌∷◌, Option, none, some, ◌>>=◌, ltb, leb, ◌==◌, if◌then◌else◌, get_or, set, length,
}
use xan.Bytecode.{
  Endian, u8, u16, u32, max_reg, no_reg, no_jump, opcode, ra, rd, op_ad, op_ajump, op_abc, setbc_op,
  setbc_a,
}
use xan.Bytecode.Opcode.{
  ByteCode, code, op_const_num, op_primitive, op_not, op_addvv, op_addvk, op_jump, op_jump_if_false,
  op_jump_if_true, op_copy_jump_if_false, op_copy_jump_if_true, op_mov, op_get_upval, op_set_upval,
  op_get_global, op_set_global, op_get_property, op_set_property, op_get_propertyk,
  op_set_propertyk, op_get_subscript, op_set_subscript,
}
use xan.Value.{Val, Value, nil, Number, Strings}
use xan.Chunk.{Chunk, add_constant}
use xan.Compiler.{
  Compiler, jump_next, before, jump_append, jump_patch_value, emit_bytecode, emit_jump_on,
  jump_to_here,
}
use xan.Compiler.Scopes.{Scope, reg_free, reg_reserve}

pub data ExpressionType : Type 0 where
  nil_extype true_extype false_extype string_extype number_extype : ExpressionType
  reloc_extype nonreloc_extype global_extype upval_extype local_extype : ExpressionType
  jump_extype call_extype indexed_extype subscript_extype void_extype : ExpressionType

-- `u.r.r = r`: the low byte of `u.s.info`.
abbrev pub with_reg : ℕ → ℕ → ℕ
with_reg info r = info / 2 ^ 8 * 2 ^ 8 + u8 r

-- `expressionDescription`: `u.s.info`, `u.s.aux` and `u.v` share memory in C, and each type uses its
-- own. `u.r.r` is the low byte of `u.s.info`.
pub record Expression (D : Type 0) : Type 0 where
  pub type : ExpressionType
  pub info : ℕ
  pub aux : ℕ
  pub v : Value D
  pub assignable : Bool
  pub true_jump : ℕ
  pub false_jump : ℕ

-- What the code for expressions uses of `Parser` and the compiler at work; `chunk` has the constants.
pub record Parser (D : Type 0) : Type 0 where
  pub compiler : Compiler
  pub scope : Scope
  pub chunk : Chunk D
  pub line : ℕ
  pub had_error : Bool

abbrev pub is_nonreloc : ExpressionType → Bool
is_nonreloc nonreloc_extype = true
is_nonreloc _ = false

abbrev pub is_jump : ExpressionType → Bool
is_jump jump_extype = true
is_jump _ = false

abbrev pub is_reloc : ExpressionType → Bool
is_reloc reloc_extype = true
is_reloc _ = false

-- The types whose expressions stay assignable in `exprToReg`.
abbrev pub is_variable : ExpressionType → Bool
is_variable nonreloc_extype = true
is_variable global_extype = true
is_variable local_extype = true
is_variable _ = false

-- The types of constants that have their value in `u.v`.
abbrev pub is_pooled : ExpressionType → Bool
is_pooled string_extype = true
is_pooled number_extype = true
is_pooled _ = false

-- The loop of `jump_novalue`.
unfoldable pub jump_novalue : ℕ → List ℕ → ℕ → Bool
jump_novalue zero words list = false
jump_novalue (suc fuel) words list =
    let w = get_or words (before list) 0 in
    let rest = jump_novalue fuel words (jump_next words list) in
    let copies = opcode w == code op_copy_jump_if_true || opcode w == code op_copy_jump_if_false in
    if list == no_jump then false else if copies || ra w == no_reg then rest else true

module _ {D : Type 0} where
  -- `ExprHasJump`.
  abbrev pub expr_has_jump : Expression D → Bool
  expr_has_jump x = not (x.true_jump == x.false_jump)

  -- `exprInit`: `assignable` is set for variables only.
  unfoldable pub expr_init : Expression D → ExpressionType → ℕ → Expression D
  expr_init x t info = record x {
    type = t;
    info = u16 info;
    assignable = elim t [ global_extype ↦ true | local_extype ↦ true | _ ↦ x.assignable ];
    true_jump = no_jump;
    false_jump = no_jump;
  }

  abbrev pub error : Parser D → Bool → Parser D
  error p b = record p { had_error = p.had_error || b }

  -- A register that is freed, as an `int16_t`.
  abbrev pub free : Parser D → ℕ → Option (Parser D)
  free p r = do c ← reg_free p.scope (u16 r); some (record p { scope = c })

  abbrev pub reserve : Parser D → ℕ → Parser D
  reserve p n = record p { scope = reg_reserve p.scope n }

  unfoldable pub expr_free : Parser D → Expression D → Option (Parser D)
  expr_free p x = if is_nonreloc x.type then free p x.info else some p

  abbrev pub word_at : Parser D → ℕ → ℕ
  word_at p i = get_or p.compiler.code i 0

  abbrev pub write_word : Parser D → ℕ → ℕ → Parser D
  write_word p i w = record p { compiler = record p.compiler { code = set p.compiler.code i w } }

  -- The expression that the instruction at `r.0` computes.
  abbrev pub relocated : Expression D → ℕ × Parser D → Expression D × Parser D
  relocated x r = (record x { type = reloc_extype; info = r.0 }, r.1)

  module _ (e : Endian) where
    -- As many rounds as there are instructions, and one, are enough for a list of jumps.
    abbrev pub rounds : Parser D → ℕ
    rounds p = length p.compiler.code + 1

    unfoldable pub emit : Parser D → ℕ → Option (ℕ × Parser D)
    emit p bc = do
      r ← emit_bytecode e (rounds p) p.compiler bc p.line
      some (r.0, error (record p { compiler = r.2 }) (r.1))

    unfoldable pub emit_ad : Parser D → ℕ → ℕ → ℕ → Option (ℕ × Parser D)
    unfolding emit
    emit_ad p op a d = emit p (op_ad op (u8 a) (u16 d))

    unfoldable pub emit_aj : Parser D → ℕ → ℕ → ℕ → Option (ℕ × Parser D)
    unfolding emit
    emit_aj p op a j = emit p (op_ajump op (u8 a) (u16 j))

    unfoldable pub emit_abc : Parser D → ℕ → ℕ → ℕ → ℕ → Option (ℕ × Parser D)
    unfolding emit
    emit_abc p op a b c = emit p (op_abc op (u8 a) (u8 b) (u8 c))

    unfoldable pub emit_jump : Parser D → ℕ → Option (ℕ × Parser D)
    emit_jump p op = do
      r ← emit_jump_on e (rounds p + 1) p.compiler op p.scope.next_reg p.line
      some (r.0, error (record p { compiler = r.2 }) (r.1))

    unfoldable pub append : Parser D → ℕ → ℕ → Option (ℕ × Parser D)
    append p list1 list2 = do
      r ← jump_append e (rounds p) p.compiler.code list1 list2
      some (r.0, error (record p { compiler = record p.compiler { code = r.2 } }) (r.1))

    unfoldable pub to_here : Parser D → ℕ → Option (Parser D)
    to_here p list = do
      r ← jump_to_here e (rounds p) p.compiler list
      some (error (record p { compiler = r.1 }) (r.0))

    unfoldable pub patch_value : Parser D → ℕ → ℕ → ℕ → ℕ → Option (Parser D)
    patch_value p list value_target r default_target = do
      q ← jump_patch_value e (rounds p) p.compiler.code list value_target r default_target
      some (error (record p { compiler = record p.compiler { code = q.1 } }) (q.0))

    -- The property or subscript that `x` is; `keyed` for a name among the constants, whose number is the
    -- complement of `aux`.
    unfoldable pub discharge_indexed :
        Parser D → Expression D → Bool → ℕ → Option (Expression D × Parser D)
    unfolding emit_abc
    discharge_indexed p x keyed op =
        let named = (do
          p1 ← free p (u8 x.info)
          r ← emit_abc p1 (code op_get_propertyk) 0 x.info (2 ^ 32 - 1 - x.aux)
          some (relocated x r)) in
        let other = (do
          p1 ← free p x.aux
          p2 ← free p1 (u8 x.info)
          r ← emit_abc p2 op 0 x.info x.aux
          some (relocated x r)) in
        if keyed then named else other

    unfoldable pub expr_discharge : Parser D → Expression D → Option (Expression D × Parser D)
    unfolding emit_ad discharge_indexed
    expr_discharge p x = elim x.type [
      | upval_extype ↦ do r ← emit_ad p (code op_get_upval) 0 x.info; some (relocated x r)
      | global_extype ↦ do r ← emit_ad p (code op_get_global) 0 x.info; some (relocated x r)
      | indexed_extype ↦ discharge_indexed p x (leb (2 ^ 31) x.aux) (code op_get_property)
      | subscript_extype ↦ discharge_indexed p x false (code op_get_subscript)
      | call_extype ↦ some (record x { type = nonreloc_extype; info = x.aux }, p)
      | local_extype ↦ some (record x { type = nonreloc_extype }, p)
      | _ ↦ some (x, p)
    ]
