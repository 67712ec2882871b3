-- ===== src/Expressions/Fits.antt =====
-- src/parse.c: when registers and positions are enough for the code of an expression.
use xan.Base.{ℕ, ◌+◌, ◌^◌, ◌<◌, ◌≤◌, ◌≡◌, ◌⊎◌, inl, inr, arith, List, length}
use xan.Value.{Value}
use xan.Expressions.{Parser}
use xan.Expressions.Trees.{Tree, literal, variable, minus, contrary, binary, Operator, height, Uses}
use xan.Expressions.Growth.{end, IsQuiet}
use xan.Expressions.Emitted.{place-more}

-- An upper bound on the number of instructions.
abbrev pub size : Tree → ℕ
size (literal l) = 0
size (variable r) = 0
size (minus t) = size t + 2
size (contrary t) = size t + 2
size (binary o a b) = size a + size b + 3

pub height-pos : (t : Tree) → 1 ≤ height t
height-pos (literal l) = omega arith
height-pos (variable r) = omega arith
height-pos (minus t) = height-pos t
height-pos (contrary t) = height-pos t
height-pos (binary o a b) = omega (arith, height-pos a)

module _ {D : Type 0} where
  -- Registers and positions are enough for the code of a tree.
  pub record Fits (p : Parser D) (regs : List (Value D)) (t : Tree) : Type 0 where
    pub quiet : IsQuiet p
    pub uses : Uses p.scope.act_var t
    pub ordered : p.scope.act_var ≤ p.scope.next_reg
    pub low : p.scope.next_reg + height t ≤ 255
    pub inside : p.scope.next_reg + height t ≤ length regs
    pub short : end p + size t < 2 ^ 16

  pub Fits-left :
      (p : Parser D) (regs : List (Value D)) (o : Operator) (a b : Tree)
      → Fits p regs (binary o a b)
      → Fits p regs a
  Fits-left p regs o a b f = record {
    quiet = f.quiet;
    uses = f.uses.0;
    ordered = f.ordered;
    low = omega (arith, f.low);
    inside = omega (arith, f.inside);
    short = omega (arith, f.short);
  }

  pub Fits-unary :
      (p : Parser D) (regs : List (Value D)) (t : Tree) (uses : Uses p.scope.act_var t)
      → IsQuiet p
      → p.scope.act_var ≤ p.scope.next_reg
      → p.scope.next_reg + height t ≤ 255
      → p.scope.next_reg + height t ≤ length regs
      → end p + (size t + 2) < 2 ^ 16
      → Fits p regs t
  Fits-unary p regs t uses quiet ordered low inside short = record {
    quiet = quiet;
    uses = uses;
    ordered = ordered;
    low = low;
    inside = inside;
    short = omega (arith, short);
  }

  -- The right operand fits behind the left one, which may have taken a register.
  pub Fits-right :
      (p q : Parser D) (regs : List (Value D)) (i : ℕ) (o : Operator) (a b : Tree)
      → Fits p regs (binary o a b)
      → IsQuiet q
      → q.scope.act_var ≡ p.scope.act_var
      → ((i ≡ p.scope.next_reg) × (q.scope.next_reg ≡ p.scope.next_reg + 1))
        ⊎ ((i < p.scope.act_var) × (q.scope.next_reg ≡ p.scope.next_reg))
      → end q ≤ end p + size a + 1
      → Fits q regs b
  Fits-right p q regs i o a b f quiet locals place near = record {
    quiet = quiet;
    uses = rw locals (f.uses.1);
    ordered = omega (
      arith,
      locals,
      f.ordered,
      place-more i p.scope.next_reg q.scope.next_reg p.scope.act_var place,
    );
    low = omega (arith, f.low, one_more place);
    inside = omega (arith, f.inside, one_more place);
    short = omega (arith, f.short, near);
  }
    where
      one_more :
          ((i ≡ p.scope.next_reg) × (q.scope.next_reg ≡ p.scope.next_reg + 1))
            ⊎ ((i < p.scope.act_var) × (q.scope.next_reg ≡ p.scope.next_reg))
          → q.scope.next_reg ≤ p.scope.next_reg + 1
      one_more (inl (here, top)) = omega arith
      one_more (inr (low, top)) = omega arith
