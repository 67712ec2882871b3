-- ===== src/Expressions/Settle.antt =====
-- src/parse.c, `exprNextReg`: a value goes to the next register, by an instruction of its own or in the
-- last one.
use xan.Base.{
  ℕ, ◌+◌, ◌*◌, ◌/◌, ◌^◌, ◌<◌, ◌≤◌, ◌≡◌, refl, sym, ap, ◌∙◌, inl, inr, arith, Bool, false, List,
  some, get_or, set, length, length-set, get_or-set, ◌==◌,
}
use mathlib.Core.Path.{subst}
use xan.Bytecode.{Endian, u8, u16, ra, rd, op_ad, setbc_a}
use xan.Bytecode.Fields.{op_ad_fields}
use xan.Bytecode.Opcode.{code, op_primitive, op_mov}
use xan.Value.{Val, nil, Number, Strings}
use xan.Compiler.Scopes.{Scope}
use xan.Run.{Arithmetic, primitive_of, moved}
use xan.Expressions.{
  ExpressionType, reloc_extype, nonreloc_extype, local_extype, Expression, Parser, word_at,
  write_word, is_nonreloc,
}
use xan.Expressions.Registers.{expr_next_reg, expr_any_reg}
use xan.Expressions.Steps.{here, step-primitive, step-move}
use xan.Expressions.Growth.{
  Grows, Grows-trans, Grows-scope, end, pushed, pushed-Grows, end-pushed, word_at-pushed,
  write_word-Grows,
}
use xan.Expressions.Places.{
  IsPrimitive, primitive_nil, primitive_true, primitive_false, Keeps, Has, final, taken,
  to_reg-settled, next_reg-run, next_reg-taken, discharge-IsPrimitive, discharge-reloc,
  discharge-local, to_reg-IsPrimitive, to_reg-reloc, to_reg-nonreloc, expr_free-other,
  expr_free-local,
}
use xan.Expressions.Deliver.{Keeps-refl, Keeps-set, at, Goes, Delivers, Arrives, Holds, assigned}

module _ (N : Number) (S : Strings) (e : Endian) (M : Arithmetic N.Double)
    (is_string is_empty : ℕ → Bool) (constants : List (Val N)) (self : Val N) (tries : List (ℕ × ℕ))
    (p p' : Parser N.Double) (regs : List (Val N)) (v : Val N) (x : Expression N.Double)
    (d : Delivers N S e M is_string is_empty constants self tries p regs v x p')
    (ordered : p.scope.act_var ≤ p.scope.next_reg) (small : p.scope.next_reg < 255)
    (inside : p.scope.next_reg < length regs) where
  abbrev r : ℕ
  r = p.scope.next_reg

  Grows-taken : Grows p (taken N S e p')
  Grows-taken =
      Grows-scope p p' (taken N S e p').scope d.grows
        (next_reg-taken N S e p' (rw d.free_again small)).2

  with_r : r / 2 ^ 8 * 2 ^ 8 + u8 r ≡ r
  with_r = omega arith

  -- The next register, once the value is there.
  in_next :
      (q : Parser N.Double) (b : Bool)
      → Grows (taken N S e p') q
      → q.scope ≡ (taken N S e p').scope
      → Arrives N S e M is_string is_empty constants self tries p regs v r q
      → Holds N S e M is_string is_empty constants self tries p regs v (final x r b) q
  in_next q b more same arrives = record {
    grows = Grows-trans p (taken N S e p') q Grows-taken more;
    settled = refl;
    plain = (refl, refl);
    arrives = rw with_r arrives;
    place = inl (
      with_r,
      ap (λ (c : Scope). c.next_reg) same
          ∙ (next_reg-taken N S e p' (rw d.free_again small)).0
          ∙ ap (λ (k : ℕ). k + 1) d.free_again,
    );
  }

  register_is : u8 ((taken N S e p').scope.next_reg + 255) ≡ r
  register_is = (next_reg-taken N S e p' (rw d.free_again small)).1 ∙ d.free_again

  -- One instruction that brings the value arrives.
  by_pushed :
      (word : ℕ)
      → end p' ≡ end p
      → ((words : List ℕ) (start : List (Val N))
          → Keeps p.scope.act_var regs start
          → get_or words (end p) 0 ≡ word
          → Goes N S e M is_string is_empty constants self tries words
              (end p)
              start
              (end p + 1)
              (set start r v))
      → Arrives N S e M is_string is_empty constants self tries p regs v r
          (pushed (taken N S e p') word)
  by_pushed word same goes words start keeps has =
      let ends : end (pushed (taken N S e p') word) ≡ end p + 1 =
        end-pushed (taken N S e p') word ∙ ap (λ (k : ℕ). k + 1) same in
      let found : word_at (pushed (taken N S e p') word) (end p) ≡ word =
        rw same at (word_at-pushed (taken N S e p') word) in
      let (kept, holds) =
        Keeps-set r r start start v (Keeps-refl r start) (omega arith)
          (omega (arith, inside, keeps.0)) in
      (
        set start r v,
        kept,
        holds,
        rw ends (goes words start keeps (has (end p) (omega arith) (omega (arith, ends)) ∙ found)),
      )

  IsPrimitive-lt : (t : ExpressionType) (n : ℕ) → IsPrimitive t n → n < 256
  IsPrimitive-lt _ _ primitive_nil = omega arith
  IsPrimitive-lt _ _ primitive_true = omega arith
  IsPrimitive-lt _ _ primitive_false = omega arith

  primitive-Goes :
      (n : ℕ) (words : List ℕ) (start : List (Val N))
      → n < 256
      → primitive_of n ≡ v
      → get_or words (end p) 0 ≡ op_ad (code op_primitive) (u8 r) (u16 n)
      → Goes N S e M is_string is_empty constants self tries words
          (end p)
          start
          (end p + 1)
          (set start r v)
  unfolding code
  primitive-Goes n words start low value found =
      let word = op_ad (code op_primitive) (u8 r) (u16 n) in
      let (o, a, b) =
        op_ad_fields (code op_primitive) (u8 r) (u16 n) (omega arith) (omega arith) (omega arith) in
      let operand : rd word ≡ n = b ∙ omega arith in
      assigned N S e M is_string is_empty constants self tries words (end p) start (ra word) r
        (primitive_of (rd word)) v (a ∙ omega arith) (ap primitive_of operand ∙ value)
        (step-primitive N M is_string is_empty
          (at N S e M is_string is_empty constants self tries words (end p) start) word found o)

  pub primitive-Holds :
      (t : ExpressionType) (n : ℕ)
      → x.type ≡ t
      → IsPrimitive t n
      → primitive_of n ≡ v
      → end p' ≡ end p
      → (y : Expression N.Double) × ((q : Parser N.Double) × (expr_next_reg N S e p' x
            ≡ some (y, q))
          × (end q ≤ end p' + 1)
          × Holds N S e M is_string is_empty constants self tries p regs v y q)
  primitive-Holds t n is prim value same =
      let q = taken N S e p' in
      let word = op_ad (code op_primitive) (u8 r) (u16 n) in
      (
        final x r false,
        (
          pushed q word,
          next_reg-run N S e p' p' x x _ (discharge-IsPrimitive N S e p' x t n is prim)
              (expr_free-other p' x (not_register t n is prim))
              (rw register_is (
                to_reg-settled N S e q (pushed q word) x r false d.plain
                  (to_reg-IsPrimitive N S e q x t n r is prim d.grows.quiet))),
          omega (arith, end-pushed q word),
          in_next (pushed q word) false (pushed-Grows q word) refl (
              by_pushed word same (λ words start keeps found.
                primitive-Goes n words start (IsPrimitive-lt t n prim) value found)),
        ),
      )
    where
      not_register :
          (t : ExpressionType) (n : ℕ) → x.type ≡ t → IsPrimitive t n → is_nonreloc x.type ≡ false
      not_register _ _ is primitive_nil = rw is refl
      not_register _ _ is primitive_true = rw is refl
      not_register _ _ is primitive_false = rw is refl

  pub reloc-Holds :
      x.type ≡ reloc_extype
      → end p ≤ x.info
      → x.info + 1 ≡ end p'
      → ((words : List ℕ) (r : ℕ) (start : List (Val N))
          → Keeps p.scope.act_var regs start
          → r < 256
          → Has words p' (end p) x.info
          → get_or words x.info 0 ≡ setbc_a e (word_at p' x.info) r
          → (regs' : List (Val N)) × Keeps p.scope.next_reg start regs'
            × Goes N S e M is_string is_empty constants self tries words
                (end p)
                start
                (end p')
                (set regs' r v))
      → (y : Expression N.Double) × ((q : Parser N.Double) × (expr_next_reg N S e p' x
            ≡ some (y, q))
          × (end q ≤ end p' + 1)
          × Holds N S e M is_string is_empty constants self tries p regs v y q)
  reloc-Holds is above last goes =
      let q = taken N S e p' in
      let word = setbc_a e (word_at p' x.info) r in
      (
        final x r false,
        (
          write_word q x.info word,
          next_reg-run N S e p' p' x x _ (discharge-reloc N S e p' x is)
              (expr_free-other p' x (rw is refl))
              (rw register_is (
                to_reg-settled N S e q (write_word q x.info word) x r false d.plain
                  (to_reg-reloc N S e q x r is))),
          omega (arith, length-set p'.compiler.code x.info word),
          record {
            grows = write_word-Grows p q x.info word Grows-taken above (omega (arith, last));
            settled = refl;
            plain = (refl, refl);
            arrives = rw with_r arrives;
            place = inl (
              with_r,
              (next_reg-taken N S e p' (rw d.free_again small)).0
                  ∙ ap (λ (k : ℕ). k + 1) d.free_again,
            );
          },
        ),
      )
    where
      arrives :
          Arrives N S e M is_string is_empty constants self tries p regs v r
            (write_word (taken N S e p') x.info (setbc_a e (word_at p' x.info) r))
      arrives words start keeps_start has =
          let word = setbc_a e (word_at p' x.info) r in
          let size : length (set p'.compiler.code x.info word) ≡ end p' =
            length-set p'.compiler.code x.info word in
          let fits : x.info < end p' = omega (arith, last) in
          let before : Has words p' (end p) x.info = λ i lo hi.
            has i lo (omega (arith, size))
            ∙ ground (arith, get_or-set p'.compiler.code x.info i word 0 fits) in
          let there : get_or words x.info 0 ≡ word =
            has x.info above (omega (arith, size))
            ∙ ground (arith, get_or-set p'.compiler.code x.info x.info word 0 fits) in
          let (regs', keeps, run) = goes words r start keeps_start (omega arith) before there in
          let (kept, holds) =
            Keeps-set r r start regs' v keeps (omega arith)
              (omega (arith, inside, keeps_start.0)) in
          (
            set regs' r v,
            kept,
            holds,
            subst
                (λ (k : ℕ).
                  Goes N S e M is_string is_empty constants self tries words (end p) start k
                    (set regs' r v))
                (sym size) run,
          )

  module _ (is : x.type ≡ local_extype) (low : x.info < p.scope.act_var)
      (value : get_or regs x.info nil ≡ v) (same : end p' ≡ end p) where
    abbrev local_y : Expression N.Double
    local_y = record x { type = nonreloc_extype }

    move-Goes :
        (words : List ℕ) (start : List (Val N))
        → Keeps p.scope.act_var regs start
        → get_or words (end p) 0 ≡ op_ad (code op_mov) (u8 r) (u16 x.info)
        → Goes N S e M is_string is_empty constants self tries words
            (end p)
            start
            (end p + 1)
            (set start r v)
    unfolding code
    move-Goes words start keeps found =
        let word = op_ad (code op_mov) (u8 r) (u16 x.info) in
        let (o, a, b) =
          op_ad_fields (code op_mov) (u8 r) (u16 x.info) (omega arith) (omega arith)
            (omega arith) in
        let operand : rd word ≡ x.info = b ∙ omega (arith, ordered, small, low) in
        let other : (x.info == 0xffff) ≡ false = ground (arith, ordered, small, low) in
        let there : moved (at N S e M is_string is_empty constants self tries words (end p) start)
              x.info
            ≡ v =
          rw other (keeps.1 x.info low ∙ value) in
        assigned N S e M is_string is_empty constants self tries words (end p) start (ra word) r
          (moved (at N S e M is_string is_empty constants self tries words (end p) start) (rd word))
          v (a ∙ omega arith)
          (ap (moved (at N S e M is_string is_empty constants self tries words (end p) start))
              operand
            ∙ there)
          (step-move N M is_string is_empty
            (at N S e M is_string is_empty constants self tries words (end p) start) word found o)

    pub local-Holds :
        (y : Expression N.Double) × ((q : Parser N.Double) × (expr_next_reg N S e p' x
            ≡ some (y, q))
          × (end q ≤ end p' + 1)
          × Holds N S e M is_string is_empty constants self tries p regs v y q)
    local-Holds =
        let q = taken N S e p' in
        let word = op_ad (code op_mov) (u8 r) (u16 x.info) in
        let other : (x.info == r) ≡ false = ground (arith, ordered, low) in
        (
          final x r x.assignable,
          (
            pushed q word,
            next_reg-run N S e p' p' x local_y _ (discharge-local N S e p' x is)
                (expr_free-local p' local_y refl (rw d.grows.locals low)
                  (omega (arith, ordered, low, small)))
                (rw register_is (
                  to_reg-settled N S e q (pushed q word) local_y r x.assignable d.plain
                    (to_reg-nonreloc N S e q local_y r refl other d.grows.quiet))),
            omega (arith, end-pushed q word),
            in_next (pushed q word) x.assignable (pushed-Grows q word) refl
                (by_pushed word same move-Goes),
          ),
        )

    -- A local stays in its register.
    pub stays :
        (expr_any_reg N S e p' x ≡ some (local_y, p'))
        × Holds N S e M is_string is_empty constants self tries p regs v local_y p'
    unfolding expr_any_reg
    stays = (
      rw (expr_any_reg, discharge-local N S e p' x is, d.plain.0, d.plain.1) refl,
      record {
        grows = d.grows;
        settled = refl;
        plain = d.plain;
        arrives = λ words start keeps has.
            (start, Keeps-refl r start, keeps.1 x.info low ∙ value, rw same (here _));
        place = inr (low, d.free_again);
      },
    )
