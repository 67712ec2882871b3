-- ===== src/Expressions/Unary.antt =====
-- src/parse.c, the end of `unary`: the operators on one value.
use xan.Base.{ℕ, ◌+◌, ◌^◌, ◌<◌, ◌≤◌, ◌≡◌, refl, ◌∙◌, arith, Bool, List, some, get_or, set, length}
use xan.Bytecode.{Endian, u8, u16, opcode, ra, rd, op_ad, setbc_a}
use xan.Bytecode.Fields.{op_ad_fields}
use xan.Value.{Val, nil, Number, Strings}
use xan.Run.{Arithmetic, continues, step}
use xan.Expressions.{reloc_extype, Expression, Parser, expr_init, expr_free, emit_ad}
use xan.Expressions.Registers.{expr_any_reg}
use xan.Expressions.Operators.{emit_unary}
use xan.Expressions.Steps.{Runs-trans}
use xan.Expressions.Growth.{Grows-scope, end, pushed, end-pushed}
use xan.Expressions.Places.{Keeps, Has, emit_ad-pushed}
use xan.Expressions.Deliver.{at, Goes, Delivers, Holds, assigned}
use xan.Expressions.AnyRegister.{any_reg-Holds}
use xan.Expressions.Operands.{relocated-fields, reloc-Delivers, expr_free-Rescoped, Holds-IsOperand}

module _ (N : Number) (S : Strings) (e : Endian) (M : Arithmetic N.Double)
    (is_string is_empty : ℕ → Bool) (constants : List (Val N)) (self : Val N)
    (tries : List (ℕ × ℕ)) where
  -- The instruction `op` makes `v` of `w`.
  abbrev pub Makes : ℕ → Val N → Val N → Type 0
  Makes op w v =
      (words : List ℕ) (ip : ℕ) (regs : List (Val N)) (word : ℕ)
      → get_or words ip 0 ≡ word
      → opcode word ≡ op
      → get_or regs (rd word) nil ≡ w
      → step N M is_string is_empty
          (at N S e M is_string is_empty constants self tries words ip regs)
        ≡ continues (
            at N S e M is_string is_empty constants self tries words (ip + 1)
              (set regs (ra word) v))

  emit_unary-run :
      (p q f f' : Parser N.Double) (x y : Expression N.Double) (op n : ℕ)
      → expr_any_reg N S e p x ≡ some (y, q)
      → expr_free q y ≡ some f
      → emit_ad e f op 0 (u8 y.info) ≡ some (n, f')
      → emit_unary N S e p op x ≡ some (expr_init y reloc_extype n, f')
  unfolding emit_unary
  emit_unary-run p q f f' x y op n one two three = rw (emit_unary, one, two, three) refl

  module _ (p p' : Parser N.Double) (regs : List (Val N)) (w v : Val N) (x : Expression N.Double)
      (op : ℕ) (d : Delivers N S e M is_string is_empty constants self tries p regs w x p')
      (ordered : p.scope.act_var ≤ p.scope.next_reg) (small : p.scope.next_reg < 255)
      (inside : p.scope.next_reg < length regs) (byte : op < 256) (makes : Makes op w v)
      (short : end p' + 1 < 2 ^ 16) where
    unary-Goes :
        (q : Parser N.Double) (y : Expression N.Double)
        → Holds N S e M is_string is_empty constants self tries p regs w y q
        → y.info < 255
        → (words : List ℕ) (r : ℕ) (start : List (Val N)) → Keeps p.scope.act_var regs start
        → r < 256
        → Has words q (end p) (end q)
        → get_or words (end q) 0 ≡ setbc_a e (op_ad op (u8 0) (u16 (u8 y.info))) r
        → (regs' : List (Val N)) × Keeps p.scope.next_reg start regs'
          × Goes N S e M is_string is_empty constants self tries words
              (end p)
              start
              (end q + 1)
              (set regs' r v)
    unary-Goes q y h low words r start keeps fits has there =
        let word = op_ad op (u8 0) (u16 (u8 y.info)) in
        let placed = setbc_a e word r in
        let (o, _, b) = op_ad_fields op (u8 0) (u16 (u8 y.info)) byte (omega arith) (omega arith) in
        let (o', a', _, _, b') = relocated-fields e word r fits in
        let operand : rd placed ≡ y.info = b' ∙ b ∙ omega arith in
        let (regs', kept, holds, goes) = h.arrives words start keeps has in
        let one = makes words (end q) regs' placed there (o' ∙ o) (rw operand holds) in
        (
          regs',
          kept,
          Runs-trans N M is_string is_empty _ _ _ goes (
              assigned N S e M is_string is_empty constants self tries words (end q) regs'
                (ra placed) r v v a' refl one),
        )

    -- The operator on an expression that has the value `w` has the value `v`.
    pub emit_unary-Delivers :
        (z : Expression N.Double) × ((q : Parser N.Double) × (emit_unary N S e p' op x
            ≡ some (z, q))
          × (end q ≤ end p' + 2)
          × Delivers N S e M is_string is_empty constants self tries p regs v z q)
    unfolding expr_init
    emit_unary-Delivers =
        let (y, (q, run, size, h, _)) =
          any_reg-Holds N S e M is_string is_empty constants self tries p p' regs w x d ordered
            small inside in
        let (operand, place, low) =
          Holds-IsOperand N S e M is_string is_empty constants self tries p q regs w y h ordered
            small in
        let few = h.grows.locals in
        let (c, freed, locals, top) =
          expr_free-Rescoped q y q.scope.next_reg p.scope.next_reg operand refl place
            (omega (arith, few, ordered, small)) in
        let f : Parser N.Double = record q { scope = c } in
        let word = op_ad op (u8 0) (u16 (u8 y.info)) in
        (
          expr_init y reloc_extype (end f),
          (
            pushed f word,
            emit_unary-run p' q f (pushed f word) x y op (end f) run freed
                (emit_ad-pushed N S e f op 0 (u8 y.info) h.grows.quiet),
            omega (arith, end-pushed f word, size),
            reloc-Delivers N S e M is_string is_empty constants self tries p f regs v
                (expr_init y reloc_extype (end f)) word (Grows-scope p q c h.grows locals) top refl
                (omega (arith, size, short)) (refl, refl) (unary-Goes q y h low),
          ),
        )
