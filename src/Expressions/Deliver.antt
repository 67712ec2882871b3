-- ===== src/Expressions/Deliver.antt =====
-- The code of src/parse.c against src/vm.c: what it is for an expression to have a value, and for a
-- register to hold it.
use xan.Base.{
  ℕ, ◌+◌, ◌<◌, ◌≤◌, ◌≡◌, refl, ◌∙◌, ◌⊎◌, arith, Bool, List, get_or, set, length, length-set,
  get_or-set,
}
use xan.Bytecode.{Endian, setbc_a}
use xan.Value.{Val, Value, nil, Number, Strings}
use xan.Run.{Arithmetic, Running, primitive_of, continues, step}
use xan.Expressions.{
  ExpressionType, reloc_extype, nonreloc_extype, local_extype, Expression, Parser, word_at,
}
use xan.Expressions.Steps.{Runs, here, next}
use xan.Expressions.Growth.{Grows, end}
use xan.Expressions.Places.{IsPrimitive, IsPlain, Keeps, Has}

module _ {D : Type 0} where
  pub Keeps-refl : (k : ℕ) (regs : List (Value D)) → Keeps k regs regs
  Keeps-refl k regs = (refl, λ j lt. refl)

  -- A write above the registers that are kept.
  pub Keeps-set :
      (k r : ℕ) (regs regs' : List (Value D)) (v : Value D)
      → Keeps k regs regs'
      → k ≤ r
      → r < length regs
      → Keeps k regs (set regs' r v) × (get_or (set regs' r v) r nil ≡ v)
  Keeps-set k r regs regs' v (size, same) above inside =
      let inside' : r < length regs' = omega (arith, size) in
      (
        (
          length-set regs' r v ∙ size,
          λ j lt. ground (arith, get_or-set regs' r j v nil inside', same j lt),
        ),
        ground (arith, get_or-set regs' r r v nil inside'),
      )

module _ (N : Number) (S : Strings) (e : Endian) (M : Arithmetic N.Double)
    (is_string is_empty : ℕ → Bool) (constants : List (Val N)) (self : Val N)
    (tries : List (ℕ × ℕ)) where
  -- The machine at a position of some code.
  abbrev pub at : List ℕ → ℕ → List (Val N) → Running N.Double
  at words ip regs = record {
    code = words;
    constants = constants;
    ip = ip;
    self = self;
    registers = regs;
    tries = tries;
  }

  abbrev pub Goes : List ℕ → ℕ → List (Val N) → ℕ → List (Val N) → Type 0
  Goes words ip regs ip' regs' = Runs N M is_string is_empty (at words ip regs) (at words ip' regs')

  -- How the expression `x` has the value `v`, when the code from `p` to `p'` has been emitted for it: it
  -- is a constant or a local, or the last instruction brings it to any register that is written in it.
  pub data HasValue (p : Parser N.Double) (regs : List (Val N)) (v : Val N)
      (x : Expression N.Double) (p' : Parser N.Double) : Type 0 where
    by_primitive :
        (t : ExpressionType) (n : ℕ)
        → x.type ≡ t
        → IsPrimitive t n
        → primitive_of n ≡ v
        → end p' ≡ end p
        → HasValue p regs v x p'
    by_local :
        x.type ≡ local_extype
        → x.info < p.scope.act_var
        → get_or regs x.info nil ≡ v
        → end p' ≡ end p
        → HasValue p regs v x p'
    by_code :
        x.type ≡ reloc_extype
        → end p ≤ x.info
        → x.info + 1 ≡ end p'
        → ((words : List ℕ) (r : ℕ) (start : List (Val N))
            → Keeps p.scope.act_var regs start
            → r < 256
            → Has words p' (end p) x.info
            → get_or words x.info 0 ≡ setbc_a e (word_at p' x.info) r
            → (regs' : List (Val N)) × Keeps p.scope.next_reg start regs'
              × Goes words (end p) start (end p') (set regs' r v))
        → HasValue p regs v x p'

  pub record Delivers (p : Parser N.Double) (regs : List (Val N)) (v : Val N)
      (x : Expression N.Double) (p' : Parser N.Double) : Type 0 where
    pub grows : Grows p p'
    pub free_again : p'.scope.next_reg ≡ p.scope.next_reg
    pub plain : IsPlain x
    pub has_value : HasValue p regs v x p'

  -- From any registers that have the same locals, the value is in the register `r` behind the code, and
  -- the registers in use before are the same.
  abbrev pub Arrives : Parser N.Double → List (Val N) → Val N → ℕ → Parser N.Double → Type 0
  Arrives p regs v r p' =
      (words : List ℕ) (start : List (Val N))
      → Keeps p.scope.act_var regs start
      → Has words p' (end p) (end p')
      → (regs' : List (Val N)) × Keeps p.scope.next_reg start regs'
        × (get_or regs' r nil ≡ v)
        × Goes words (end p) start (end p') regs'

  pub assigned :
      (words : List ℕ) (ip : ℕ) (regs : List (Val N)) (a r : ℕ) (w v : Val N)
      → a ≡ r
      → w ≡ v
      → step N M is_string is_empty (at words ip regs)
        ≡ continues (at words (ip + 1) (set regs a w))
      → Goes words ip regs (ip + 1) (set regs r v)
  assigned words ip regs a r w v ea ev one =
      next _ (at words (ip + 1) (set regs a w)) _ one (rw (ea, ev) (here _))

  -- It is the next register, which is now in use, or that of a local.
  pub record Holds (p : Parser N.Double) (regs : List (Val N)) (v : Val N) (y : Expression N.Double)
      (p' : Parser N.Double) : Type 0 where
    pub grows : Grows p p'
    pub settled : y.type ≡ nonreloc_extype
    pub plain : IsPlain y
    pub arrives : Arrives p regs v y.info p'
    pub place :
        ((y.info ≡ p.scope.next_reg) × (p'.scope.next_reg ≡ p.scope.next_reg + 1))
        ⊎ ((y.info < p.scope.act_var) × (p'.scope.next_reg ≡ p.scope.next_reg))
