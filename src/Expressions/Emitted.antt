-- ===== src/Expressions/Emitted.antt =====
-- src/parse.c, `emit_arith`, `emit_comp`, `emit_binop`: the instruction that an operator on two values
-- emits.
use xan.Base.{ℕ, ◌+◌, ◌<◌, ◌≤◌, ◌≡◌, refl, ◌⊎◌, inl, inr, arith, false, some}
use xan.Bytecode.{Endian, u8, op_abc}
use xan.Bytecode.Opcode.{code}
use xan.Value.{Number, Strings}
use xan.Expressions.{Expression, Parser, is_pooled, relocated, emit_abc}
use xan.Expressions.Registers.{expr_any_reg, expr_toval}
use xan.Expressions.Operators.{release, operand, emit_arith, emit_comp, emit_binop, emit_binop_left}
use xan.Expressions.Trees.{
  Operator, add, subtract, multiply, divide, modulo, equal, unequal, less, at_most, greater,
  at_least, instruction,
}
use xan.Expressions.Growth.{end, IsQuiet, pushed, emit-pushed}
use xan.Expressions.Operands.{IsOperand}

module _ (N : Number) (S : Strings) (e : Endian) where
  -- The instruction of an operator whose operands are in registers.
  module _ (p q f : Parser N.Double) (op n : ℕ) (e1 e2 z y : Expression N.Double)
      (first_toval : expr_toval N S e q e1 ≡ some (e1, q))
      (first_any : expr_any_reg N S e q e1 ≡ some (e1, q))
      (second_toval : expr_toval N S e p e2 ≡ some (z, p)) (constant_no : is_pooled z.type ≡ false)
      (second_any : expr_any_reg N S e p z ≡ some (y, q))
      (emitted : emit_abc e (release (release q e1) y) op 0 e1.info y.info ≡ some (n, f)) where
    pub arith-run : emit_arith N S e p op e1 e2 ≡ some (relocated e1 (n, f))
    unfolding emit_arith
    arith-run =
        rw
          (
            emit_arith, second_toval, operand, constant_no, second_any, first_toval, first_any,
            emitted,
          )
          refl

    pub comp-run :
        expr_toval N S e p e1 ≡ some (e1, p)
        → expr_any_reg N S e p e1 ≡ some (e1, p)
        → emit_comp N S e p op e1 e2 ≡ some (relocated e1 (n, f))
    unfolding emit_comp
    comp-run before_toval before_any =
        rw (emit_comp, before_toval, before_any, second_toval, second_any, emitted) refl

  -- An arithmetic operator or a comparison.
  pub binop-cases :
      (o : Operator) (p : Parser N.Double) (e1 e2 : Expression N.Double)
      → (emit_binop N S e p (code (instruction o)) e1 e2
          ≡ emit_arith N S e p (code (instruction o)) e1 e2)
        ⊎ (emit_binop N S e p (code (instruction o)) e1 e2
            ≡ emit_comp N S e p (code (instruction o)) e1 e2)
  unfolding emit_binop code
  binop-cases add p e1 e2 = inl refl
  binop-cases subtract p e1 e2 = inl refl
  binop-cases multiply p e1 e2 = inl refl
  binop-cases divide p e1 e2 = inl refl
  binop-cases modulo p e1 e2 = inl refl
  binop-cases equal p e1 e2 = inr refl
  binop-cases unequal p e1 e2 = inr refl
  binop-cases less p e1 e2 = inr refl
  binop-cases at_most p e1 e2 = inr refl
  binop-cases greater p e1 e2 = inr refl
  binop-cases at_least p e1 e2 = inr refl

  pub left-any :
      (o : Operator) (p : Parser N.Double) (x : Expression N.Double)
      → emit_binop_left N S e p (code (instruction o)) x ≡ expr_any_reg N S e p x
  unfolding emit_binop_left code
  left-any add p x = refl
  left-any subtract p x = refl
  left-any multiply p x = refl
  left-any divide p x = refl
  left-any modulo p x = refl
  left-any equal p x = refl
  left-any unequal p x = refl
  left-any less p x = refl
  left-any at_most p x = refl
  left-any greater p x = refl
  left-any at_least p x = refl

  pub code-lt : (o : Operator) → code (instruction o) < 256
  unfolding code
  code-lt add = omega arith
  code-lt subtract = omega arith
  code-lt multiply = omega arith
  code-lt divide = omega arith
  code-lt modulo = omega arith
  code-lt equal = omega arith
  code-lt unequal = omega arith
  code-lt less = omega arith
  code-lt at_most = omega arith
  code-lt greater = omega arith
  code-lt at_least = omega arith

  pub emit_abc-pushed :
      (p : Parser N.Double) (op a b c : ℕ)
      → IsQuiet p
      → emit_abc e p op a b c ≡ some (end p, pushed p (op_abc op (u8 a) (u8 b) (u8 c)))
  unfolding emit_abc
  emit_abc-pushed p op a b c quiet = emit-pushed e p (op_abc op (u8 a) (u8 b) (u8 c)) quiet

pub place-more : (i k k' n : ℕ) → ((i ≡ k) × (k' ≡ k + 1)) ⊎ ((i < n) × (k' ≡ k)) → k ≤ k'
place-more i k k' n (inl (here, top)) = omega arith
place-more i k k' n (inr (low, top)) = omega arith

module _ {D : Type 0} where
  -- An operand after other registers have been freed or taken.
  pub IsOperand-shift :
      (q r : Parser D) (y : Expression D) (k k' m m' : ℕ)
      → IsOperand q y k k'
      → r.scope.act_var ≡ q.scope.act_var
      → (k ≡ k' + 1 → m ≡ m' + 1)
      → (k ≡ k' → m ≡ m')
      → IsOperand r y m m'
  IsOperand-shift q r y k k' m m' (is, inl ((low, high), e)) same up level =
      (is, inl ((omega (arith, low, same), high), up e))
  IsOperand-shift q r y k k' m m' (is, inr (low, e)) same up level =
      (is, inr (omega (arith, low, same), level e))
