-- ===== src/Expressions/Operands.antt =====
-- src/parse.c, `emit_arith`, `emit_comp` and the end of `unary`: the instruction of an operator, when its
-- operands are in registers.
use xan.Base.{
  ℕ, ◌+◌, ◌-◌, ◌^◌, ◌<◌, ◌≤◌, ◌≡◌, refl, sym, ap, ◌∙◌, ◌⊎◌, inl, inr, arith, Bool, true, false,
  ◌&&◌, leb, ltb, List, [], ◌∷◌, some, get_or, set, get_or-append,
}
use xan.Bytecode.{Endian, u8, u16, opcode, ra, rb, rc, rd, setbc_a}
use xan.Bytecode.Fields.{rb_lem, rc_lem, rd_lem}
use xan.Bytecode.Patch.{setbc-HasFields}
use xan.Value.{Val, Number, Strings}
use xan.Compiler.Scopes.{Scope}
use xan.Compiler.Scopes.Registers.{reg_free-last}
use xan.Run.{Arithmetic}
use xan.Expressions.{
  reloc_extype, nonreloc_extype, Expression, Parser, word_at, expr_free, is_nonreloc,
}
use xan.Expressions.Operators.{release}
use xan.Expressions.Growth.{
  Grows, Grows-trans, end, pushed, pushed-Grows, end-pushed, word_at-pushed,
}
use xan.Expressions.Places.{expr_free-local, IsPlain, Keeps, Has}
use xan.Expressions.Deliver.{Goes, Delivers, Holds, by_code}

-- The register of an instruction is written later: the rest of it stays.
pub relocated-fields :
    (e : Endian) (w r : ℕ)
    → r < 256
    → (opcode (setbc_a e w r) ≡ opcode w)
      × (ra (setbc_a e w r) ≡ r)
      × (rb (setbc_a e w r) ≡ rb w)
      × (rc (setbc_a e w r) ≡ rc w)
      × (rd (setbc_a e w r) ≡ rd w)
relocated-fields e w r small =
    let (_, f, _, _) = setbc-HasFields e w r small in
    (f.opcode_is, f.ra_is, f.rb_is, f.rc_is, halves (setbc_a e w r) w f.rb_is f.rc_is)
  where
    halves : (x w : ℕ) → rb x ≡ rb w → rc x ≡ rc w → rd x ≡ rd w
    halves x w b c = omega (arith, b, c, rb_lem x, rc_lem x, rd_lem x, rb_lem w, rc_lem w, rd_lem w)

module _ (N : Number) (S : Strings) (e : Endian) (M : Arithmetic N.Double)
    (is_string is_empty : ℕ → Bool) (constants : List (Val N)) (self : Val N)
    (tries : List (ℕ × ℕ)) where
  -- An instruction behind the code of its operands, with a register that is not known yet.
  pub reloc-Delivers :
      (p f : Parser N.Double) (regs : List (Val N)) (v : Val N) (x : Expression N.Double) (word : ℕ)
      → Grows p f
      → f.scope.next_reg ≡ p.scope.next_reg
      → x.type ≡ reloc_extype
      → x.info ≡ end f
      → IsPlain x
      → ((words : List ℕ) (r : ℕ) (start : List (Val N))
          → Keeps p.scope.act_var regs start
          → r < 256
          → Has words f (end p) (end f)
          → get_or words (end f) 0 ≡ setbc_a e word r
          → (regs' : List (Val N)) × Keeps p.scope.next_reg start regs'
            × Goes N S e M is_string is_empty constants self tries words
                (end p)
                start
                (end f + 1)
                (set regs' r v))
      → Delivers N S e M is_string is_empty constants self tries p regs v x (pushed f word)
  reloc-Delivers p f regs v x word grows freed is place plain goes = record {
    grows = Grows-trans p f (pushed f word) grows (pushed-Grows f word);
    free_again = freed;
    plain = plain;
    has_value =
        by_code is (omega (arith, place, grows.longer))
          (ap (λ (k : ℕ). k + 1) place ∙ sym (end-pushed f word)) run;
  }
    where
      run :
          (words : List ℕ) (r : ℕ) (start : List (Val N))
          → Keeps p.scope.act_var regs start
          → r < 256
          → Has words (pushed f word) (end p) x.info
          → get_or words x.info 0 ≡ setbc_a e (word_at (pushed f word) x.info) r
          → (regs' : List (Val N)) × Keeps p.scope.next_reg start regs'
            × Goes N S e M is_string is_empty constants self tries words
                (end p)
                start
                (end (pushed f word))
                (set regs' r v)
      run words r start keeps small has here =
          let before : Has words f (end p) (end f) =
            λ i lo hi. has i lo (rw place hi) ∙ get_or-append f.compiler.code (word ∷ []) i 0 hi in
          let there : get_or words (end f) 0 ≡ setbc_a e word r =
            (rw place at here) ∙ ap (λ (w : ℕ). setbc_a e w r) (word_at-pushed f word) in
          let (regs', kept, goes') = goes words r start keeps small before there in
          (regs', kept, rw (end-pushed f word) goes')

module _ {D : Type 0} where
  -- The parser with another use of registers, for the same locals.
  abbrev pub Rescoped : Parser D → Parser D → ℕ → Type 0
  Rescoped p q k =
      (c : Scope) × (p ≡ record q { scope = c }) × (c.act_var ≡ q.scope.act_var) × (c.next_reg ≡ k)

  -- The operand `y` is in the register `k`, the last one in use but for those above it, or in a local.
  abbrev pub IsOperand : Parser D → Expression D → ℕ → ℕ → Type 0
  IsOperand q y k k' =
      (y.type ≡ nonreloc_extype)
      × ((((q.scope.act_var ≤ y.info) × (y.info < 255)) × (k ≡ k' + 1))
          ⊎ ((y.info < q.scope.act_var) × (k ≡ k')))

  pub release-Rescoped :
      (q : Parser D) (y : Expression D) (k k' : ℕ)
      → IsOperand q y k k'
      → q.scope.next_reg ≡ k
      → k < 256
      → q.scope.act_var < 256
      → Rescoped (release q y) q k'
  release-Rescoped q y k k' (is, inl ((low, high), e)) top small few =
      let test : (is_nonreloc y.type
            && leb q.scope.act_var (u16 y.info)
            && ltb (u16 y.info) (2 ^ 15))
          ≡ true =
        let a : is_nonreloc y.type ≡ true = rw is refl in
        let b : leb q.scope.act_var (u16 y.info) ≡ true = ground arith in
        let c : ltb (u16 y.info) (2 ^ 15) ≡ true = ground arith in rw (a, b, c) refl in
      (
        record q.scope { next_reg = u8 (q.scope.next_reg + 255) },
        rw test refl,
        refl,
        omega (arith, top, e, small),
      )
  release-Rescoped q y k k' (is, inr (low, e)) top small few =
      let test : (is_nonreloc y.type
            && leb q.scope.act_var (u16 y.info)
            && ltb (u16 y.info) (2 ^ 15))
          ≡ false =
        let b : leb q.scope.act_var (u16 y.info) ≡ false = ground arith in
        rw b (last (is_nonreloc y.type)) in
      (q.scope, rw test refl, refl, top ∙ e)
    where
      last : (b : Bool) → (b && false && ltb (u16 y.info) (2 ^ 15)) ≡ false
      last true = refl
      last false = refl

  pub expr_free-Rescoped :
      (q : Parser D) (y : Expression D) (k k' : ℕ)
      → IsOperand q y k k'
      → q.scope.next_reg ≡ k
      → (y.info ≡ k') ⊎ (y.info < q.scope.act_var)
      → q.scope.act_var < 256
      → (c : Scope) × (expr_free q y ≡ some (record q { scope = c }))
        × (c.act_var ≡ q.scope.act_var)
        × (c.next_reg ≡ k')
  unfolding expr_free
  expr_free-Rescoped q y k k' (is, inr (low, e)) top place few =
      (q.scope, expr_free-local q y is low (omega arith), refl, top ∙ e)
  expr_free-Rescoped q y k k' (is, inl ((low, high), e)) top (inr below) few = absurd (omega arith)
  expr_free-Rescoped q y k k' (is, inl ((low, high), e)) top (inl place) few =
      let word : u16 y.info ≡ y.info = omega arith in
      let here : is_nonreloc y.type ≡ true = rw is refl in
      let freed = reg_free-last q.scope y.info low high (omega (arith, top, e, place)) in
      (
        record q.scope { next_reg = q.scope.next_reg - 1 },
        rw (expr_free, here, word, freed) refl,
        refl,
        omega (arith, top, e),
      )

module _ (N : Number) (S : Strings) (e : Endian) (M : Arithmetic N.Double)
    (is_string is_empty : ℕ → Bool) (constants : List (Val N)) (self : Val N)
    (tries : List (ℕ × ℕ)) where
  -- What holds a value is an operand.
  pub Holds-IsOperand :
      (p q : Parser N.Double) (regs : List (Val N)) (v : Val N) (y : Expression N.Double)
      → Holds N S e M is_string is_empty constants self tries p regs v y q
      → p.scope.act_var ≤ p.scope.next_reg
      → p.scope.next_reg < 255
      → IsOperand q y q.scope.next_reg p.scope.next_reg
        × ((y.info ≡ p.scope.next_reg) ⊎ (y.info < q.scope.act_var))
        × (y.info < 255)
  Holds-IsOperand p q regs v y h ordered small = go h.place
    where
      go :
          ((y.info ≡ p.scope.next_reg) × (q.scope.next_reg ≡ p.scope.next_reg + 1))
            ⊎ ((y.info < p.scope.act_var) × (q.scope.next_reg ≡ p.scope.next_reg))
          → IsOperand q y q.scope.next_reg p.scope.next_reg
            × ((y.info ≡ p.scope.next_reg) ⊎ (y.info < q.scope.act_var))
            × (y.info < 255)
      go (inl (here, top)) = (
        (
          h.settled,
          inl ((omega (arith, here, ordered, h.grows.locals), omega (arith, here, small)), top),
        ),
        inl here,
        omega (arith, here, small),
      )
      go (inr (low, top)) = (
        (h.settled, inr (omega (arith, low, h.grows.locals), top)),
        inr (omega (arith, low, h.grows.locals)),
        omega (arith, low, ordered, small),
      )
