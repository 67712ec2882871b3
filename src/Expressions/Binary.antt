-- ===== src/Expressions/Binary.antt =====
-- src/parse.c, `emit_arith`, `emit_comp`, `emit_binop`: the operators on two values.
use xan.Base.{
  ℕ, ◌+◌, ◌-◌, ◌<◌, ◌≤◌, ◌≡◌, refl, ap, ◌∙◌, ◌⊎◌, inl, inr, arith, Bool, List, some, get_or, set,
  length,
}
use xan.Bytecode.{Endian, u8, opcode, ra, rb, rc, op_abc, setbc_a}
use xan.Bytecode.Fields.{op_abc_fields}
use xan.Bytecode.Opcode.{code}
use xan.Value.{Val, nil, Number, Strings}
use xan.Compiler.Scopes.{Scope}
use xan.Run.{Arithmetic, continues, step}
use xan.Expressions.{reloc_extype, Expression, Parser, emit_abc}
use xan.Expressions.Operators.{release, emit_binop}
use xan.Expressions.Trees.{Operator, instruction}
use xan.Expressions.Steps.{Runs-trans}
use xan.Expressions.Growth.{Grows, Grows-trans, Grows-scope, end, IsQuiet, pushed, end-pushed}
use xan.Expressions.Places.{Keeps, Has}
use xan.Expressions.Deliver.{at, Goes, Delivers, Holds, assigned}
use xan.Expressions.AnyRegister.{any_reg-Holds, settled-any, settled-toval}
use xan.Expressions.Operands.{
  relocated-fields, reloc-Delivers, Rescoped, release-Rescoped, Holds-IsOperand,
}
use xan.Expressions.Emitted.{
  arith-run, comp-run, binop-cases, code-lt, emit_abc-pushed, place-more, IsOperand-shift,
}

module _ (N : Number) (S : Strings) (e : Endian) (M : Arithmetic N.Double)
    (is_string is_empty : ℕ → Bool) (constants : List (Val N)) (self : Val N)
    (tries : List (ℕ × ℕ)) where
  -- The instruction `op` makes `v` of `a` and `b`.
  abbrev pub MakesOf : ℕ → Val N → Val N → Val N → Type 0
  MakesOf op a b v =
      (words : List ℕ) (ip : ℕ) (regs : List (Val N)) (word : ℕ)
      → get_or words ip 0 ≡ word
      → opcode word ≡ op
      → get_or regs (rb word) nil ≡ a
      → get_or regs (rc word) nil ≡ b
      → step N M is_string is_empty
          (at N S e M is_string is_empty constants self tries words ip regs)
        ≡ continues (
            at N S e M is_string is_empty constants self tries words (ip + 1)
              (set regs (ra word) v))

  module _ (p q1 p2 : Parser N.Double) (regs : List (Val N)) (a b v : Val N)
      (y1 x2 : Expression N.Double) (o : Operator)
      (h1 : Holds N S e M is_string is_empty constants self tries p regs a y1 q1)
      (d2 : Delivers N S e M is_string is_empty constants self tries q1 regs b x2 p2)
      (ordered : p.scope.act_var ≤ p.scope.next_reg) (small : q1.scope.next_reg < 255)
      (inside : q1.scope.next_reg < length regs)
      (makes : MakesOf (code (instruction o)) a b v) where
    more : p.scope.next_reg ≤ q1.scope.next_reg
    more = place-more y1.info p.scope.next_reg q1.scope.next_reg p.scope.act_var h1.place

    -- The register of the first operand is in use while the second one is computed.
    in_use : y1.info < q1.scope.next_reg
    in_use = go h1.place
      where
        go :
            ((y1.info ≡ p.scope.next_reg) × (q1.scope.next_reg ≡ p.scope.next_reg + 1))
              ⊎ ((y1.info < p.scope.act_var) × (q1.scope.next_reg ≡ p.scope.next_reg))
            → y1.info < q1.scope.next_reg
        go (inl (here, top)) = omega arith
        go (inr (low, top)) = omega (arith, ordered)

    binary-Goes :
        (q2 : Parser N.Double) (y2 : Expression N.Double)
        → Holds N S e M is_string is_empty constants self tries q1 regs b y2 q2
        → y1.info < 255
        → y2.info < 255
        → (words : List ℕ) (r : ℕ) (start : List (Val N)) → Keeps p.scope.act_var regs start
        → r < 256
        → Has words q2 (end p) (end q2)
        → get_or words (end q2) 0
          ≡ setbc_a e (op_abc (code (instruction o)) (u8 0) (u8 y1.info) (u8 y2.info)) r
        → (regs' : List (Val N)) × Keeps p.scope.next_reg start regs'
          × Goes N S e M is_string is_empty constants self tries words
              (end p)
              start
              (end q2 + 1)
              (set regs' r v)
    binary-Goes q2 y2 h2 low1 low2 words r start keeps fits has there =
        let op = code (instruction o) in
        let word = op_abc op (u8 0) (u8 y1.info) (u8 y2.info) in
        let placed = setbc_a e word r in
        let (o', _, b', c', _) =
          op_abc_fields op (u8 0) (u8 y1.info) (u8 y2.info) (code-lt N S e o) (omega arith)
            (omega arith) (omega arith) in
        let (oo, aa, bb, cc', _) = relocated-fields e word r fits in
        let first : rb placed ≡ y1.info = bb ∙ b' ∙ omega arith in
        let second : rc placed ≡ y2.info = cc' ∙ c' ∙ omega arith in
        let has1 : Has words q1 (end p) (end q1) =
          λ i lo hi. has i lo (omega (arith, h2.grows.longer)) ∙ h2.grows.same i hi in
        let (regs1, kept1, holds1, goes1) = h1.arrives words start keeps has1 in
        let keeps1 : Keeps q1.scope.act_var regs regs1 = (
          kept1.0 ∙ keeps.0,
          λ j lt.
              kept1.1 j (omega (arith, h1.grows.locals, ordered))
              ∙ keeps.1 j (omega (arith, h1.grows.locals)),
        ) in
        let (regs2, kept2, holds2, goes2) =
          h2.arrives words regs1 keeps1 (λ i lo hi. has i (omega (arith, h1.grows.longer)) hi) in
        let held1 : get_or regs2 y1.info nil ≡ a = kept2.1 y1.info in_use ∙ holds1 in
        let one =
          makes words (end q2) regs2 placed there (oo ∙ o') (rw first held1) (rw second holds2) in
        (
          regs2,
          (kept2.0 ∙ kept1.0, λ j lt. kept2.1 j (omega (arith, more)) ∙ kept1.1 j lt),
          Runs-trans N M is_string is_empty _ _ _ goes1 (
              Runs-trans N M is_string is_empty _ _ _ goes2 (
                assigned N S e M is_string is_empty constants self tries words (end q2) regs2
                  (ra placed) r v v aa refl one)),
        )

    -- Both registers are free again.
    released :
        (q2 : Parser N.Double) (y2 : Expression N.Double)
        → Holds N S e M is_string is_empty constants self tries q1 regs b y2 q2
        → Rescoped (release (release q2 y1) y2) q2 p.scope.next_reg
    released q2 y2 h2 =
        let (one, _, _) =
          Holds-IsOperand N S e M is_string is_empty constants self tries p q1 regs a y1 h1 ordered
            (omega (arith, more, small)) in
        let ordered1 : q1.scope.act_var ≤ q1.scope.next_reg =
          omega (arith, h1.grows.locals, more, ordered) in
        let (two, _, _) =
          Holds-IsOperand N S e M is_string is_empty constants self tries q1 q2 regs b y2 h2
            ordered1 small in
        let rise =
          place-more y2.info q1.scope.next_reg q2.scope.next_reg q1.scope.act_var h2.place in
        let middle = p.scope.next_reg + (q2.scope.next_reg - q1.scope.next_reg) in
        let one' =
          IsOperand-shift q1 q2 y1 q1.scope.next_reg p.scope.next_reg q2.scope.next_reg middle one
            h2.grows.locals (λ e. omega (arith, rise)) (λ e. omega (arith, rise)) in
        let few : q2.scope.act_var < 256 = omega (arith, h2.grows.locals, ordered1, small) in
        let high : q2.scope.next_reg < 256 = top h2.place in
        let (c1, is1, locals1, next1) =
          release-Rescoped q2 y1 q2.scope.next_reg middle one' refl high few in
        let r1 : Parser N.Double = record q2 { scope = c1 } in
        let two' =
          IsOperand-shift q2 r1 y2 q2.scope.next_reg q1.scope.next_reg middle p.scope.next_reg two
            locals1 (λ e. omega (arith, rise)) (λ e. omega (arith, rise)) in
        let (c2, is2, locals2, next2) =
          release-Rescoped r1 y2 middle p.scope.next_reg two' next1
            (omega (arith, rise, high, more)) (omega (arith, locals1, few)) in
        (c2, ap (λ (q : Parser N.Double). release q y2) is1 ∙ is2, locals2 ∙ locals1, next2)
      where
        top :
            ((y2.info ≡ q1.scope.next_reg) × (q2.scope.next_reg ≡ q1.scope.next_reg + 1))
              ⊎ ((y2.info < q1.scope.act_var) × (q2.scope.next_reg ≡ q1.scope.next_reg))
            → q2.scope.next_reg < 256
        top (inl (here, up)) = omega (arith, small)
        top (inr (low, same)) = omega (arith, small)

    emitted :
        (q2 f : Parser N.Double) (y2 : Expression N.Double) (c : Scope)
        → release (release q2 y1) y2 ≡ record q2 { scope = c }
        → IsQuiet q2
        → emit_abc e (release (release q2 y1) y2) (code (instruction o)) 0 y1.info y2.info
          ≡ some (
            end q2,
            pushed
                (record q2 { scope = c })
                (op_abc (code (instruction o)) (u8 0) (u8 y1.info) (u8 y2.info)),
          )
    emitted q2 f y2 c is quiet =
        ap (λ (q : Parser N.Double). emit_abc e q (code (instruction o)) 0 y1.info y2.info) is
        ∙ emit_abc-pushed N S e (record q2 { scope = c }) (code (instruction o)) 0 y1.info y2.info
            quiet

    -- The operator on an expression in a register and one with a value has the value that the
    -- instruction makes.
    pub emit_binop-Delivers :
        (z : Expression N.Double) × ((f : Parser N.Double) × (emit_binop N S e p2
              (code (instruction o))
              y1
              x2
            ≡ some (z, f))
          × (end f ≤ end p2 + 2)
          × Delivers N S e M is_string is_empty constants self tries p regs v z f)
    emit_binop-Delivers =
        let op = code (instruction o) in
        let ordered1 : q1.scope.act_var ≤ q1.scope.next_reg =
          omega (arith, h1.grows.locals, more, ordered) in
        let (y2, (q2, _, size, h2, (zz, toval, constant_no, any))) =
          any_reg-Holds N S e M is_string is_empty constants self tries q1 p2 regs b x2 d2 ordered1
            small inside in
        let (_, _, low1) =
          Holds-IsOperand N S e M is_string is_empty constants self tries p q1 regs a y1 h1 ordered
            (omega (arith, more, small)) in
        let (_, _, low2) =
          Holds-IsOperand N S e M is_string is_empty constants self tries q1 q2 regs b y2 h2
            ordered1 small in
        let (c, is, locals, next) = released q2 y2 h2 in
        let f : Parser N.Double = record q2 { scope = c } in
        let word = op_abc op (u8 0) (u8 y1.info) (u8 y2.info) in
        let out = emitted q2 f y2 c is h2.grows.quiet in
        let grows : Grows p f = Grows-scope p q2 c (Grows-trans p q1 q2 h1.grows h2.grows) locals in
        let settled = settled-toval N S e q2 y1 h1.settled h1.plain in
        let settled' = settled-any N S e q2 y1 h1.settled h1.plain in
        (
          record y1 { type = reloc_extype; info = end q2 },
          (
            pushed f word,
            elim (binop-cases N S e o p2 y1 x2) [
              | inl c ↦
                  c
                  ∙ arith-run N S e p2 q2 (pushed f word) op (end q2) y1 x2 zz y2 settled settled'
                      toval constant_no any out
              | inr c ↦
                  c
                  ∙ comp-run N S e p2 q2 (pushed f word) op (end q2) y1 x2 zz y2 settled settled'
                      toval constant_no any out (settled-toval N S e p2 y1 h1.settled h1.plain)
                      (settled-any N S e p2 y1 h1.settled h1.plain)
            ],
            omega (arith, end-pushed f word, size),
            reloc-Delivers N S e M is_string is_empty constants self tries p f regs v
                (record y1 { type = reloc_extype; info = end q2 }) word grows next refl refl
                h1.plain (binary-Goes q2 y2 h2 low1 low2),
          ),
        )
