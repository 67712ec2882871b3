-- ===== src/Expressions/Growth.antt =====
-- src/parse.c: what the emission of code leaves as it was, when no jump is pending.
use xan.Base.{
  ℕ, ◌+◌, ◌<◌, ◌≤◌, ◌≡◌, refl, sym, ap, ◌∙◌, arith, Bool, true, false, ◌||◌, [], ◌∷◌, ◌++◌, some,
  length, length-append, get_or-append, length-set, get_or-set,
}
use xan.Bytecode.{Endian, no_jump}
use xan.Compiler.{Compiler, emit_bytecode}
use xan.Compiler.Emit.{emit_alone, get_or-last}
use xan.Compiler.Scopes.{Scope}
use xan.Expressions.{Parser, emit, word_at, write_word, rounds}

module _ {D : Type 0} where
  -- No jump waits for the next instruction.
  abbrev pub IsQuiet : Parser D → Type 0
  IsQuiet p = p.compiler.pending_jump_list ≡ no_jump

  abbrev pub end : Parser D → ℕ
  end p = length p.compiler.code

  -- The code of `p'` begins with that of `p`, no jump is pending, and nothing else differs but the
  -- registers in use.
  pub record Grows (p p' : Parser D) : Type 0 where
    pub longer : end p ≤ end p'
    pub same : (i : ℕ) → i < end p → word_at p' i ≡ word_at p i
    pub quiet : IsQuiet p'
    pub locals : p'.scope.act_var ≡ p.scope.act_var
    pub pool : p'.chunk ≡ p.chunk
    pub errors : p'.had_error ≡ p.had_error

  pub Grows-refl : (p : Parser D) → IsQuiet p → Grows p p
  Grows-refl p quiet = record {
    longer = omega arith;
    same = λ i lt. refl;
    quiet = quiet;
    locals = refl;
    pool = refl;
    errors = refl;
  }

  pub Grows-trans : (p p1 p2 : Parser D) → Grows p p1 → Grows p1 p2 → Grows p p2
  Grows-trans p p1 p2 f g = record {
    longer = omega (arith, f.longer, g.longer);
    same = λ i lt. g.same i (omega (arith, f.longer)) ∙ f.same i lt;
    quiet = g.quiet;
    locals = g.locals ∙ f.locals;
    pool = g.pool ∙ f.pool;
    errors = g.errors ∙ f.errors;
  }

  -- Another use of registers.
  pub Grows-scope :
      (p p' : Parser D) (c : Scope)
      → Grows p p'
      → c.act_var ≡ p'.scope.act_var
      → Grows p (record p' { scope = c })
  Grows-scope p p' c g same = record {
    longer = g.longer;
    same = g.same;
    quiet = g.quiet;
    locals = same ∙ g.locals;
    pool = g.pool;
    errors = g.errors;
  }

  -- The parser with one more instruction.
  abbrev pub pushed : Parser D → ℕ → Parser D
  pushed p bc = record p {
    compiler = record p.compiler {
      code = p.compiler.code ++ bc ∷ [];
      lines = p.compiler.lines ++ p.line ∷ [];
      pending_jump_list = no_jump;
    };
    had_error = p.had_error || false;
  }

  pub emit-pushed :
      (e : Endian) (p : Parser D) (bc : ℕ) → IsQuiet p → emit e p bc ≡ some (end p, pushed p bc)
  unfolding emit
  emit-pushed e p bc quiet =
      let same : record p.compiler { pending_jump_list = no_jump } ≡ p.compiler =
        ap (λ (q : ℕ). record p.compiler { pending_jump_list = q }) (sym quiet) in
      let run =
        sym (ap (λ (c : Compiler). emit_bytecode e (rounds e p) c bc p.line) same)
        ∙ emit_alone e (rounds e p) p.compiler bc p.line (omega arith) in
      rw (emit, run) refl

  pub pushed-Grows : (p : Parser D) (bc : ℕ) → Grows p (pushed p bc)
  pushed-Grows p bc = record {
    longer = omega (arith, length-append p.compiler.code (bc ∷ []));
    same = λ i lt. get_or-append p.compiler.code (bc ∷ []) i 0 lt;
    quiet = refl;
    locals = refl;
    pool = refl;
    errors = or_false p.had_error;
  }
    where
      or_false : (b : Bool) → (b || false) ≡ b
      or_false true = refl
      or_false false = refl

  pub end-pushed : (p : Parser D) (bc : ℕ) → end (pushed p bc) ≡ end p + 1
  end-pushed p bc = length-append p.compiler.code (bc ∷ [])

  pub word_at-pushed : (p : Parser D) (bc : ℕ) → word_at (pushed p bc) (end p) ≡ bc
  word_at-pushed p bc = get_or-last p.compiler.code bc

  -- A write behind the old code.
  pub write_word-Grows :
      (p p' : Parser D) (i w : ℕ)
      → Grows p p'
      → end p ≤ i
      → i < end p'
      → Grows p (write_word p' i w)
  write_word-Grows p p' i w g above inside = record {
    longer = rw (length-set p'.compiler.code i w) g.longer;
    same = λ j lt. ground (arith, get_or-set p'.compiler.code i j w 0 inside, g.same j lt);
    quiet = g.quiet;
    locals = g.locals;
    pool = g.pool;
    errors = g.errors;
  }
