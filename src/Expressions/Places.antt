-- ===== src/Expressions/Places.antt =====
-- src/parse.c: an expression whose code is out goes to a register.
use xan.Base.{
  ℕ, ◌+◌, ◌<◌, ◌≤◌, ◌≡◌, refl, ap, arith, Bool, true, false, ◌&&◌, List, Option, some, leb, get_or,
  length, ◌==◌,
}
use xan.Bytecode.{Endian, no_jump, u8, u16, op_ad, setbc_a}
use xan.Bytecode.Opcode.{code, op_primitive, op_mov}
use xan.Value.{Value, nil, Number, Strings}
use xan.Compiler.Scopes.{reg_free, reg_bump, reg_reserve}
use xan.Expressions.{
  ExpressionType, nil_extype, true_extype, false_extype, reloc_extype, nonreloc_extype,
  local_extype, Expression, Parser, is_nonreloc, with_reg, expr_free, reserve, word_at, write_word,
  emit_ad, expr_discharge,
}
use xan.Expressions.Registers.{settled, place, expr_to_reg_no_branch, expr_to_reg, expr_next_reg}
use xan.Expressions.Growth.{end, IsQuiet, pushed, emit-pushed}

-- The types of `nil`, `true` and `false`, by their numbers.
pub data IsPrimitive : ExpressionType → ℕ → Type 0 where
  primitive_nil : IsPrimitive nil_extype 0
  primitive_true : IsPrimitive true_extype 1
  primitive_false : IsPrimitive false_extype 2

-- No branch waits for the value.
abbrev pub IsPlain : {D : Type 0} → Expression D → Type 0
IsPlain x = (x.true_jump ≡ no_jump) × (x.false_jump ≡ no_jump)

-- The first `k` registers are the same.
abbrev pub Keeps : {D : Type 0} → ℕ → List (Value D) → List (Value D) → Type 0
Keeps k regs regs' =
    (length regs' ≡ length regs) × ((j : ℕ) → j < k → get_or regs' j nil ≡ get_or regs j nil)

-- The code is that of the parser from the position `a` up to `b`.
abbrev pub Has : {D : Type 0} → List ℕ → Parser D → ℕ → ℕ → Type 0
Has words p a b = (i : ℕ) → a ≤ i → i < b → get_or words i 0 ≡ word_at p i

-- The expression of `exprToReg`, for a value in the register `r`.
abbrev pub final : {D : Type 0} → Expression D → ℕ → Bool → Expression D
final x r b = record x {
  type = nonreloc_extype;
  info = with_reg r r;
  assignable = b && true;
  true_jump = no_jump;
  false_jump = no_jump;
}

module _ {D : Type 0} where
  -- `exprFree` of a local, and of what is not in a register.
  pub expr_free-other :
      (p : Parser D) (x : Expression D) → is_nonreloc x.type ≡ false → expr_free p x ≡ some p
  unfolding expr_free
  expr_free-other p x off = rw (expr_free, off) refl

  pub expr_free-local :
      (p : Parser D) (x : Expression D)
      → x.type ≡ nonreloc_extype
      → x.info < p.scope.act_var
      → x.info < 255
      → expr_free p x ≡ some p
  unfolding expr_free reg_free
  expr_free-local p x at low small =
      let off : (leb p.scope.act_var (u16 x.info)) ≡ false = ground arith in
      rw (expr_free, at, reg_free) (ground (arith, off))

module _ (N : Number) (S : Strings) (e : Endian) where
  pub to_reg-settled :
      (p p' : Parser N.Double) (x : Expression N.Double) (r : ℕ) (b : Bool)
      → IsPlain x
      → expr_to_reg_no_branch N S e p x r ≡ some (settled x r b, p')
      → expr_to_reg N S e p x r ≡ some (final x r b, p')
  unfolding expr_to_reg
  to_reg-settled p p' x r b (t, f) run = rw (expr_to_reg, run, t, f) refl

  -- The register that `exprNextReg` takes.
  abbrev pub taken : Parser N.Double → Parser N.Double
  taken p = reserve p 1

  pub next_reg-run :
      (p p' : Parser N.Double) (x y : Expression N.Double)
      (z : Expression N.Double × Parser N.Double)
      → expr_discharge e p x ≡ some (y, p)
      → expr_free p y ≡ some p
      → expr_to_reg N S e (taken p) y (u8 ((taken p).scope.next_reg + 255)) ≡ some z
      → expr_next_reg N S e p x ≡ some z
  unfolding expr_next_reg
  next_reg-run p p' x y z one two run = rw (expr_next_reg, one, two, run) refl

  pub next_reg-taken :
      (p : Parser N.Double)
      → p.scope.next_reg < 255
      → ((taken p).scope.next_reg ≡ p.scope.next_reg + 1)
        × (u8 ((taken p).scope.next_reg + 255) ≡ p.scope.next_reg)
        × ((taken p).scope.act_var ≡ p.scope.act_var)
  unfolding reg_reserve
  next_reg-taken p small = (omega arith, omega arith, unfold reg_bump in ground arith)

  -- `emit_AD` of two operands.
  pub emit_ad-pushed :
      (p : Parser N.Double) (op a d : ℕ)
      → IsQuiet p
      → emit_ad e p op a d ≡ some (end p, pushed p (op_ad op (u8 a) (u16 d)))
  unfolding emit_ad
  emit_ad-pushed p op a d quiet = emit-pushed e p (op_ad op (u8 a) (u16 d)) quiet

  abbrev both :
      Expression N.Double → Parser N.Double → Option (Expression N.Double × Parser N.Double)
  both x p = some (x, p)

  retyped :
      (p : Parser N.Double) (x : Expression N.Double) {t : ExpressionType}
      → x.type ≡ t
      → both x p ≡ both (record x { type = t }) p
  retyped p x at = ap (λ (t : ExpressionType). both (record x { type = t }) p) at

  pub discharge-IsPrimitive :
      (p : Parser N.Double) (x : Expression N.Double) (t : ExpressionType) (n : ℕ)
      → x.type ≡ t
      → IsPrimitive t n
      → expr_discharge e p x ≡ some (x, p)
  unfolding expr_discharge
  discharge-IsPrimitive p x _ _ at primitive_nil = rw (expr_discharge, at) (retyped p x at)
  discharge-IsPrimitive p x _ _ at primitive_true = rw (expr_discharge, at) (retyped p x at)
  discharge-IsPrimitive p x _ _ at primitive_false = rw (expr_discharge, at) (retyped p x at)

  pub discharge-reloc :
      (p : Parser N.Double) (x : Expression N.Double)
      → x.type ≡ reloc_extype
      → expr_discharge e p x ≡ some (x, p)
  unfolding expr_discharge
  discharge-reloc p x at = rw (expr_discharge, at) (retyped p x at)

  pub discharge-nonreloc :
      (p : Parser N.Double) (x : Expression N.Double)
      → x.type ≡ nonreloc_extype
      → expr_discharge e p x ≡ some (x, p)
  unfolding expr_discharge
  discharge-nonreloc p x at = rw (expr_discharge, at) (retyped p x at)

  pub discharge-local :
      (p : Parser N.Double) (x : Expression N.Double)
      → x.type ≡ local_extype
      → expr_discharge e p x ≡ some (record x { type = nonreloc_extype }, p)
  unfolding expr_discharge
  discharge-local p x at = rw (expr_discharge, at) refl

  -- `exprToRegNoBranch` on each of them.
  pub to_reg-IsPrimitive :
      (p : Parser N.Double) (x : Expression N.Double) (t : ExpressionType) (n r : ℕ)
      → x.type ≡ t
      → IsPrimitive t n
      → IsQuiet p
      → expr_to_reg_no_branch N S e p x r
        ≡ some (settled x r false, pushed p (op_ad (code op_primitive) (u8 r) (u16 n)))
  unfolding expr_to_reg_no_branch place
  to_reg-IsPrimitive p x t n r at is quiet =
      rw (expr_to_reg_no_branch, discharge-IsPrimitive p x t n at is) (go t n at is)
    where
      go :
          (t : ExpressionType) (n : ℕ)
          → x.type ≡ t
          → IsPrimitive t n
          → place N S e p x r
            ≡ some (settled x r false, pushed p (op_ad (code op_primitive) (u8 r) (u16 n)))
      go _ _ at primitive_nil = rw (place, at, emit_ad-pushed p (code op_primitive) r 0 quiet) refl
      go _ _ at primitive_true = rw (place, at, emit_ad-pushed p (code op_primitive) r 1 quiet) refl
      go _ _ at primitive_false =
          rw (place, at, emit_ad-pushed p (code op_primitive) r 2 quiet) refl

  pub to_reg-reloc :
      (p : Parser N.Double) (x : Expression N.Double) (r : ℕ)
      → x.type ≡ reloc_extype
      → expr_to_reg_no_branch N S e p x r
        ≡ some (settled x r false, write_word p x.info (setbc_a e (word_at p x.info) r))
  unfolding expr_to_reg_no_branch place
  to_reg-reloc p x r at = rw (expr_to_reg_no_branch, discharge-reloc p x at, place, at) refl

  -- A value that is in another register is moved.
  pub to_reg-nonreloc :
      (p : Parser N.Double) (x : Expression N.Double) (r : ℕ)
      → x.type ≡ nonreloc_extype
      → (x.info == r) ≡ false
      → IsQuiet p
      → expr_to_reg_no_branch N S e p x r
        ≡ some (settled x r x.assignable, pushed p (op_ad (code op_mov) (u8 r) (u16 x.info)))
  unfolding expr_to_reg_no_branch place
  to_reg-nonreloc p x r at other quiet =
      rw
        (
          expr_to_reg_no_branch,
          discharge-nonreloc p x at,
          place,
          at,
          other,
          emit_ad-pushed p (code op_mov) r x.info quiet,
        )
        refl
