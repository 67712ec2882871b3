-- ===== src/Expressions/AnyRegister.antt =====
-- src/parse.c, `exprNextReg` and `exprAnyReg` of an expression that has a value.
use xan.Base.{ℕ, ◌+◌, ◌<◌, ◌≤◌, ◌≡◌, refl, ◌∙◌, arith, Bool, true, false, List, some, length}
use xan.Bytecode.{Endian}
use xan.Value.{Val, Number, Strings}
use xan.Run.{Arithmetic}
use xan.Expressions.{
  ExpressionType, nonreloc_extype, Expression, Parser, expr_discharge, is_nonreloc, is_pooled,
  expr_has_jump,
}
use xan.Expressions.Registers.{expr_next_reg, expr_any_reg, expr_toval}
use xan.Expressions.Growth.{end}
use xan.Expressions.Places.{
  IsPrimitive, primitive_nil, primitive_true, primitive_false, IsPlain, discharge-IsPrimitive,
  discharge-reloc, discharge-nonreloc, discharge-local,
}
use xan.Expressions.Deliver.{HasValue, by_primitive, by_local, by_code, Delivers, Holds}
use xan.Expressions.Settle.{primitive-Holds, reloc-Holds, local-Holds, stays}

module _ (N : Number) (S : Strings) (e : Endian) where
  toval-plain :
      (p : Parser N.Double) (x : Expression N.Double)
      → IsPlain x
      → expr_toval N S e p x ≡ expr_discharge e p x
  unfolding expr_toval
  toval-plain p x (t, f) = rw (expr_toval, t, f) refl

  -- What is in a register stays there.
  pub settled-any :
      (p : Parser N.Double) (x : Expression N.Double)
      → x.type ≡ nonreloc_extype
      → IsPlain x
      → expr_any_reg N S e p x ≡ some (x, p)
  unfolding expr_any_reg
  settled-any p x is (t, f) =
      let here : is_nonreloc x.type ≡ true = rw is refl in
      let no_jumps : expr_has_jump x ≡ false = rw (t, f) refl in
      rw (expr_any_reg, discharge-nonreloc N S e p x is, here, no_jumps) refl

  pub settled-toval :
      (p : Parser N.Double) (x : Expression N.Double)
      → x.type ≡ nonreloc_extype
      → IsPlain x
      → expr_toval N S e p x ≡ some (x, p)
  settled-toval p x is plain = toval-plain p x plain ∙ discharge-nonreloc N S e p x is

module _ (N : Number) (S : Strings) (e : Endian) (M : Arithmetic N.Double)
    (is_string is_empty : ℕ → Bool) (constants : List (Val N)) (self : Val N) (tries : List (ℕ × ℕ))
    (p p' : Parser N.Double) (regs : List (Val N)) (v : Val N) (x : Expression N.Double)
    (d : Delivers N S e M is_string is_empty constants self tries p regs v x p')
    (ordered : p.scope.act_var ≤ p.scope.next_reg) (small : p.scope.next_reg < 255)
    (inside : p.scope.next_reg < length regs) where
  -- `exprNextReg` of an expression that has a value: the next register holds it.
  pub next_reg-Holds :
      (y : Expression N.Double) × ((q : Parser N.Double) × (expr_next_reg N S e p' x ≡ some (y, q))
        × (end q ≤ end p' + 1)
        × Holds N S e M is_string is_empty constants self tries p regs v y q)
  next_reg-Holds = go d.has_value
    where
      go :
          HasValue N S e M is_string is_empty constants self tries p regs v x p'
          → (y : Expression N.Double) × ((q : Parser N.Double) × (expr_next_reg N S e p' x
                ≡ some (y, q))
              × (end q ≤ end p' + 1)
              × Holds N S e M is_string is_empty constants self tries p regs v y q)
      go (by_primitive t n is prim value same) =
          primitive-Holds N S e M is_string is_empty constants self tries p p' regs v x d ordered
            small inside t n is prim value same
      go (by_local is low value same) =
          local-Holds N S e M is_string is_empty constants self tries p p' regs v x d ordered small
            inside is low value same
      go (by_code is above last goes) =
          reloc-Holds N S e M is_string is_empty constants self tries p p' regs v x d ordered small
            inside is above last goes

  -- `exprAnyReg` as `exprNextReg`, of what is in no register.
  any_reg-next :
      (z : Expression N.Double × Parser N.Double)
      → expr_discharge e p' x ≡ some (x, p')
      → is_nonreloc x.type ≡ false
      → expr_next_reg N S e p' x ≡ some z
      → expr_any_reg N S e p' x ≡ some z
  unfolding expr_any_reg
  any_reg-next z same off run = rw (expr_any_reg, same, off, run) refl

  -- `exprAnyReg` of an expression that has a value: the next register or that of a local holds it. `expr_toval`
  -- before it makes no difference, and leaves no constant of the pool.
  pub any_reg-Holds :
      (y : Expression N.Double) × ((q : Parser N.Double) × (expr_any_reg N S e p' x ≡ some (y, q))
        × (end q ≤ end p' + 1)
        × Holds N S e M is_string is_empty constants self tries p regs v y q
        × ((z : Expression N.Double) × (expr_toval N S e p' x ≡ some (z, p'))
            × (is_pooled z.type ≡ false)
            × (expr_any_reg N S e p' z ≡ some (y, q))))
  any_reg-Holds = go d.has_value
    where
      toval :
          (z : Expression N.Double)
          → expr_discharge e p' x ≡ some (z, p')
          → expr_toval N S e p' x ≡ some (z, p')
      toval z run = toval-plain N S e p' x d.plain ∙ run

      prim_off :
          (t : ExpressionType) (n : ℕ) → x.type ≡ t → IsPrimitive t n → is_nonreloc x.type ≡ false
      prim_off _ _ is primitive_nil = rw is refl
      prim_off _ _ is primitive_true = rw is refl
      prim_off _ _ is primitive_false = rw is refl

      pool_off :
          (t : ExpressionType) (n : ℕ) → x.type ≡ t → IsPrimitive t n → is_pooled x.type ≡ false
      pool_off _ _ is primitive_nil = rw is refl
      pool_off _ _ is primitive_true = rw is refl
      pool_off _ _ is primitive_false = rw is refl

      go :
          HasValue N S e M is_string is_empty constants self tries p regs v x p'
          → (y : Expression N.Double) × ((q : Parser N.Double) × (expr_any_reg N S e p' x
                ≡ some (y, q))
              × (end q ≤ end p' + 1)
              × Holds N S e M is_string is_empty constants self tries p regs v y q
              × ((z : Expression N.Double) × (expr_toval N S e p' x ≡ some (z, p'))
                  × (is_pooled z.type ≡ false)
                  × (expr_any_reg N S e p' z ≡ some (y, q))))
      go (by_primitive t n is prim value same) =
          let (y, (q, run, size, holds)) = next_reg-Holds in
          let discharge = discharge-IsPrimitive N S e p' x t n is prim in
          let any = any_reg-next (y, q) discharge (prim_off t n is prim) run in
          (y, (q, any, size, holds, (x, toval x discharge, pool_off t n is prim, any)))
      go (by_local is low value same) =
          let (any, holds) =
            stays N S e M is_string is_empty constants self tries p p' regs v x d ordered small
              inside is low value same in
          let z : Expression N.Double = record x { type = nonreloc_extype } in
          (
            z,
            (
              p',
              any,
              omega arith,
              holds,
              (
                z,
                toval z (discharge-local N S e p' x is),
                refl,
                settled-any N S e p' z refl d.plain,
              ),
            ),
          )
      go (by_code is above last goes) =
          let (y, (q, run, size, holds)) = next_reg-Holds in
          let discharge = discharge-reloc N S e p' x is in
          let any = any_reg-next (y, q) discharge (rw is refl) run in
          (y, (q, any, size, holds, (x, toval x discharge, rw is refl, any)))
