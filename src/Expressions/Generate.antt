-- ===== src/Expressions/Generate.antt =====
-- src/parse.c and src/vm.c: the code of an expression computes its value.
use xan.Base.{
  some-injective, Bool, ℕ, ◌+◌, ◌^◌, ◌<◌, ◌≤◌, ◌≡◌, refl, ap, ◌∙◌, arith, List, some, get_or, set,
  >>=-eq-some,
}
use xan.Bytecode.{Endian, u16, ra}
use xan.Bytecode.Opcode.{code, op_negate, op_not}
use xan.Value.{Val, nil, bool, Number, Strings}
use xan.Run.{Arithmetic, is_falsey, continues}
use xan.Expressions.{
  nil_extype, true_extype, false_extype, local_extype, Expression, Parser, expr_init,
}
use xan.Expressions.Registers.{expr_any_reg}
use xan.Expressions.Operators.{emit_unary, emit_binop}
use xan.Expressions.Trees.{
  Tree, literal, variable, minus, contrary, binary, Literal, literal_nil, literal_true,
  literal_false, Operator, instruction, literal_type, blank, generate, apply, literal_value,
  negated, evaluate,
}
use xan.Expressions.Steps.{step-Operator, step-minus, step-contrary}
use xan.Expressions.Growth.{Grows-refl, end, IsQuiet}
use xan.Expressions.Places.{primitive_nil, primitive_true, primitive_false, Keeps, Has}
use xan.Expressions.Deliver.{at, Goes, Delivers, HasValue, by_primitive, by_local}
use xan.Expressions.AnyRegister.{any_reg-Holds}
use xan.Expressions.Fits.{size, height-pos, Fits, Fits-left, Fits-right, Fits-unary}
use xan.Expressions.Unary.{Makes, emit_unary-Delivers}
use xan.Expressions.Emitted.{left-any}
use xan.Expressions.Binary.{MakesOf, emit_binop-Delivers}

module _ (N : Number) (S : Strings) (e : Endian) (M : Arithmetic N.Double)
    (is_string is_empty : ℕ → Bool) (constants : List (Val N)) (self : Val N)
    (tries : List (ℕ × ℕ)) where
  abbrev Generated : Parser N.Double → List (Val N) → Val N → Tree → Type 0
  Generated p regs v t =
      (x : Expression N.Double) × ((p' : Parser N.Double) × (generate N S e p t ≡ some (x, p'))
        × (end p' ≤ end p + size t)
        × Delivers N S e M is_string is_empty constants self tries p regs v x p')

  literal-Generated :
      (l : Literal) (p : Parser N.Double) (regs : List (Val N))
      → IsQuiet p
      → Generated p regs (literal_value N M is_empty l) (literal l)
  unfolding generate expr_init
  literal-Generated l p regs quiet = (
    expr_init blank (literal_type l) 0,
    (
      p,
      refl,
      omega arith,
      record {
        grows = Grows-refl p quiet;
        free_again = refl;
        plain = (refl, refl);
        has_value = go l;
      },
    ),
  )
    where
      go :
          (l : Literal)
          → HasValue N S e M is_string is_empty constants self tries p regs
              (literal_value N M is_empty l)
              (expr_init blank (literal_type l) 0)
              p
      go literal_nil = by_primitive nil_extype 0 refl primitive_nil refl refl
      go literal_true = by_primitive true_extype 1 refl primitive_true refl refl
      go literal_false = by_primitive false_extype 2 refl primitive_false refl refl

  variable-Generated :
      (r : ℕ) (p : Parser N.Double) (regs : List (Val N))
      → Fits p regs (variable r)
      → Generated p regs (get_or regs r nil) (variable r)
  unfolding generate expr_init
  variable-Generated r p regs f =
      let word : u16 r ≡ r = omega (arith, f.uses, f.ordered, f.low) in
      (
        expr_init blank local_extype r,
        (
          p,
          refl,
          omega arith,
          record {
            grows = Grows-refl p f.quiet;
            free_again = refl;
            plain = (refl, refl);
            has_value =
                by_local refl (omega (arith, f.uses, word)) (ap (λ (i : ℕ). get_or regs i nil) word)
                  refl;
          },
        ),
      )

  unary-Generated :
      (p : Parser N.Double) (regs : List (Val N)) (w v : Val N) (t t' : Tree) (op : ℕ)
      → Fits p regs t
      → end p + size t + 2 < 2 ^ 16
      → op < 256
      → Makes N S e M is_string is_empty constants self tries op w v
      → size t' ≡ size t + 2
      → ((x : Expression N.Double) (p' : Parser N.Double)
          → generate N S e p t ≡ some (x, p')
          → generate N S e p t' ≡ emit_unary N S e p' op x)
      → Generated p regs w t
      → Generated p regs v t'
  unary-Generated p regs w v t t' op f room byte makes longer calls (x, (p', run, short, d)) =
      let (z, (q, run', more, d')) =
        emit_unary-Delivers N S e M is_string is_empty constants self tries p p' regs w v x op d
          f.ordered (omega (arith, f.low, height-pos t)) (omega (arith, f.inside, height-pos t))
          byte makes (omega (arith, short, room)) in
      (z, (q, calls x p' run ∙ run', omega (arith, more, short, longer), d'))

  minus-calls :
      (p p' : Parser N.Double) (x : Expression N.Double) (t : Tree)
      → generate N S e p t ≡ some (x, p')
      → generate N S e p (minus t) ≡ emit_unary N S e p' (code op_negate) x
  unfolding generate
  minus-calls p p' x t run = rw run refl

  contrary-calls :
      (p p' : Parser N.Double) (x : Expression N.Double) (t : Tree)
      → generate N S e p t ≡ some (x, p')
      → generate N S e p (contrary t) ≡ emit_unary N S e p' (code op_not) x
  unfolding generate
  contrary-calls p p' x t run = rw run refl

  binary-calls :
      (p p1 q1 p2 : Parser N.Double) (x1 y1 x2 : Expression N.Double) (o : Operator) (a b : Tree)
      → generate N S e p a ≡ some (x1, p1)
      → expr_any_reg N S e p1 x1 ≡ some (y1, q1)
      → generate N S e q1 b ≡ some (x2, p2)
      → generate N S e p (binary o a b) ≡ emit_binop N S e p2 (code (instruction o)) y1 x2
  unfolding generate
  binary-calls p p1 q1 p2 x1 y1 x2 o a b one two three =
      let left = left-any N S e o p1 x1 ∙ two in rw (one, left, three) refl

  binary-Generated :
      (p : Parser N.Double) (regs : List (Val N)) (u w v : Val N) (o : Operator) (a b : Tree)
      → Fits p regs (binary o a b)
      → apply N M is_empty o u w ≡ some v
      → Generated p regs u a
      → ((q : Parser N.Double) → Fits q regs b → Generated q regs w b)
      → Generated p regs v (binary o a b)
  binary-Generated p regs u w v o a b f value (x1, (p1, run1, short1, d1)) right =
      let fa = Fits-left p regs o a b f in
      let (y1, (q1, any, more, h1, _)) =
        any_reg-Holds N S e M is_string is_empty constants self tries p p1 regs u x1 d1 f.ordered
          (omega (arith, fa.low, height-pos a)) (omega (arith, fa.inside, height-pos a)) in
      let fb =
        Fits-right p q1 regs y1.info o a b f h1.grows.quiet h1.grows.locals h1.place
          (omega (arith, more, short1)) in
      let (x2, (p2, run2, short2, d2)) = right q1 fb in
      let (z, (q, run, last, d)) =
        emit_binop-Delivers N S e M is_string is_empty constants self tries p q1 p2 regs u w v y1 x2
          o h1 d2 f.ordered (omega (arith, fb.low, height-pos b))
          (omega (arith, fb.inside, height-pos b)) makes in
      (
        z,
        (
          q,
          binary-calls p p1 q1 p2 x1 y1 x2 o a b run1 any run2 ∙ run,
          omega (arith, last, short2, more, short1),
          d,
        ),
      )
    where
      makes : MakesOf N S e M is_string is_empty constants self tries (code (instruction o)) u w v
      makes words ip rs word found is first second =
          step-Operator N M is_string is_empty
            (at N S e M is_string is_empty constants self tries words ip rs) o word v found is
            (rw (first, second) value)

  small_negate : code op_negate < 256
  unfolding code
  small_negate = omega arith

  small_not : code op_not < 256
  unfolding code
  small_not = omega arith

  minus-Makes :
      (w v : Val N)
      → negated N M is_empty w ≡ some v
      → Makes N S e M is_string is_empty constants self tries (code op_negate) w v
  minus-Makes w v value words ip rs word found is held =
      step-minus N M is_string is_empty
        (at N S e M is_string is_empty constants self tries words ip rs) word v found is
        (ap (negated N M is_empty) held ∙ value)

  contrary-Makes :
      (w v : Val N)
      → bool (is_falsey is_empty w) ≡ v
      → Makes N S e M is_string is_empty constants self tries (code op_not) w v
  contrary-Makes w v value words ip rs word found is held =
      step-contrary N M is_string is_empty
        (at N S e M is_string is_empty constants self tries words ip rs) word found is
      ∙ ap
          (λ (x : Val N). continues (
            at N S e M is_string is_empty constants self tries words (ip + 1) (set rs (ra word) x)))
          (ap (λ (x : Val N). bool (is_falsey is_empty x)) held ∙ value)

  generate-Generated :
      (t : Tree) (p : Parser N.Double) (regs : List (Val N)) (v : Val N)
      → Fits p regs t
      → evaluate N M is_empty regs t ≡ some v
      → Generated p regs v t
  unfolding evaluate
  generate-Generated (literal l) p regs v f value =
      rw (← some-injective value) (literal-Generated l p regs f.quiet)
  generate-Generated (variable r) p regs v f value =
      rw (← some-injective value) (variable-Generated r p regs f)
  generate-Generated (minus t) p regs v f value =
      let (w, inner, outer) = >>=-eq-some (evaluate N M is_empty regs t) _ value in
      let ft = Fits-unary p regs t f.uses f.quiet f.ordered f.low f.inside f.short in
      unary-Generated p regs w v t (minus t) (code op_negate) ft (omega (arith, f.short))
        small_negate (minus-Makes w v outer) refl (λ x p'. minus-calls p p' x t)
        (generate-Generated t p regs w ft inner)
  generate-Generated (contrary t) p regs v f value =
      let (w, inner, outer) = >>=-eq-some (evaluate N M is_empty regs t) _ value in
      let ft = Fits-unary p regs t f.uses f.quiet f.ordered f.low f.inside f.short in
      unary-Generated p regs w v t (contrary t) (code op_not) ft (omega (arith, f.short)) small_not
        (contrary-Makes w v (some-injective outer)) refl (λ x p'. contrary-calls p p' x t)
        (generate-Generated t p regs w ft inner)
  generate-Generated (binary o a b) p regs v f value =
      let (u, left, rest) = >>=-eq-some (evaluate N M is_empty regs a) _ value in
      let (w, right, outer) = >>=-eq-some (evaluate N M is_empty regs b) _ rest in
      binary-Generated p regs u w v o a b f outer
        (generate-Generated a p regs u (Fits-left p regs o a b f) left)
        (λ q fits. generate-Generated b q regs w fits right)

  -- The code that `binary` and `unary` emit for an expression of the literals `nil`, `true` and `false`, locals, the
  -- two operators on one value, the five arithmetic operators and the six comparisons (no numbers, strings, `and`,
  -- `or`, calls or accesses), and `exprAnyReg` after it, where the expression has a value, its variables are locals, no jump is pending, and registers and positions are enough: no error is reported, and a run of the
  -- code from registers for which the expression has that value ends behind it, with the value in the register that
  -- `exprAnyReg` names and the registers that were in use as before.
  pub generate-Runs :
      (t : Tree) (p : Parser N.Double) (regs : List (Val N)) (v : Val N)
      → Fits p regs t
      → evaluate N M is_empty regs t ≡ some v
      → (x : Expression N.Double) × ((y : Expression N.Double) × ((p' : Parser N.Double)
            × ((q : Parser N.Double) × (generate N S e p t ≡ some (x, p'))
                × (expr_any_reg N S e p' x ≡ some (y, q))
                × (q.had_error ≡ p.had_error)
                × ((words : List ℕ)
                    → Has words q (end p) (end q)
                    → (regs' : List (Val N)) × Keeps p.scope.next_reg regs regs'
                      × (get_or regs' y.info nil ≡ v)
                      × Goes N S e M is_string is_empty constants self tries words
                          (end p)
                          regs
                          (end q)
                          regs'))))
  generate-Runs t p regs v f value =
      let (x, (p', run, _, d)) = generate-Generated t p regs v f value in
      let (y, (q, any, _, h, _)) =
        any_reg-Holds N S e M is_string is_empty constants self tries p p' regs v x d f.ordered
          (omega (arith, f.low, height-pos t)) (omega (arith, f.inside, height-pos t)) in
      (
        x,
        (
          y,
          (
            p',
            (
              q,
              run,
              any,
              h.grows.errors,
              λ words has. h.arrives words regs (refl, λ j lt. refl) has,
            ),
          ),
        ),
      )
