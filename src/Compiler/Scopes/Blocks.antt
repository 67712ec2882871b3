-- ===== src/Compiler/Scopes/Blocks.antt =====
-- src/parse.c, `endScope` and `declareVariable`: the locals of a block.
use native.Mathlib.Decide.{ℕ_discrete}
use xan.Base.{
  ℕ, zero, suc, ◌+◌, ◌-◌, ◌<◌, ◌≤◌, ◌≡◌, refl, sym, ◌∙◌, ◌⊎◌, inl, inr, arith, Bool, true, false,
  List, Option, none, some, if◌then◌else◌, get_or, Bool-cases,
}
use xan.Bytecode.{op_ad}
use xan.Bytecode.Opcode.{code, op_close_upvalues}
use xan.Compiler.Scopes.{
  Local, Scope, no_local, is_deep, captured_from, local_is_captured, left_from, end_scope,
  resolve_local,
}
use xan.Compiler.Scopes.Names.{Resolves, resolve_local-Resolves}

-- The locals of the current block are the active ones from `first` on; `first` is not the place of `this`.
pub record IsBlock (c : Scope) (first : ℕ) : Type 0 where
  pub behind_this : 1 ≤ first
  pub at_most : first ≤ c.act_var + 1
  pub inner :
      (i : ℕ)
      → first ≤ i
      → i ≤ c.act_var
      → is_deep (get_or c.locals i no_local) c.scope_depth ≡ true
  pub outer : is_deep (get_or c.locals (first - 1) no_local) c.scope_depth ≡ false
  pub small : c.act_var < 256

left_from_lem :
    (locals : List Local) (scope_depth first n : ℕ)
    → 1 ≤ first
    → first ≤ n
    → ((i : ℕ) → first ≤ i → i < n → is_deep (get_or locals i no_local) scope_depth ≡ true)
    → is_deep (get_or locals (first - 1) no_local) scope_depth ≡ false
    → left_from locals scope_depth n ≡ first
unfolding left_from
left_from_lem locals scope_depth first zero pos le inner outer = omega arith
left_from_lem locals scope_depth first (suc n) pos le inner outer =
    elim (ℕ_discrete first (suc n)) [
      | yes e ↦ let at : first - 1 ≡ n = omega arith in rw (rw at at outer) (sym e)
      | no ne ↦ rw (inner n (omega arith) (omega arith)) (
          left_from_lem locals scope_depth first n pos (omega arith)
            (λ i lo hi. inner i lo (omega arith)) outer)
    ]

captured_from_lem :
    (locals : List Local) (scope_depth first n : ℕ)
    → 1 ≤ first
    → first ≤ n
    → ((i : ℕ) → first ≤ i → i < n → is_deep (get_or locals i no_local) scope_depth ≡ true)
    → is_deep (get_or locals (first - 1) no_local) scope_depth ≡ false
    → ((captured_from locals scope_depth n ≡ true)
        × ((i : ℕ) × (first ≤ i) × (i < n) × ((get_or locals i no_local).is_captured ≡ true)))
      ⊎ ((captured_from locals scope_depth n ≡ false)
          × ((i : ℕ) → first ≤ i → i < n → (get_or locals i no_local).is_captured ≡ false))
unfolding captured_from
captured_from_lem locals scope_depth first zero pos le inner outer = absurd (omega arith)
captured_from_lem locals scope_depth first (suc n) pos le inner outer =
    elim (ℕ_discrete first (suc n)) [
      | yes e ↦
          let at : first - 1 ≡ n = omega arith in
          inr (rw (rw at at outer) refl, λ i lo hi. absurd (omega arith))
      | no ne ↦ elim (Bool-cases (get_or locals n no_local).is_captured) [
        | inl is ↦
            inl
              (rw (inner n (omega arith) (omega arith), is) refl, (n, omega arith, omega arith, is))
        | inr off ↦
            elim (captured_from_lem locals scope_depth first n pos (omega arith)
              (λ i lo hi. inner i lo (omega arith)) outer) [
                | inl (run, (i, lo, hi, is)) ↦
                    inl
                      (rw (inner n (omega arith) (omega arith), off) run, (i, lo, omega arith, is))
                | inr (run, none_is) ↦ inr (
                  rw (inner n (omega arith) (omega arith), off) run,
                  λ i lo hi. elim (ℕ_discrete i n) [
                    | yes p ↦ rw p off
                    | no off_n ↦ none_is i lo (omega arith)
                  ],
                )
              ]
      ]
    ]

-- What `endScope` makes of the function `c`, and the instruction that it emits.
pub record Ends (c : Scope) (first : ℕ) (c' : Scope) (emitted : Option ℕ) : Type 0 where
  pub active : c'.act_var ≡ first - 1
  pub registers : c'.next_reg ≡ first - 1
  pub depth : c'.scope_depth ≡ c.scope_depth - 1
  pub visible : (name : List ℕ) → Resolves c.locals name first (resolve_local c' name)
  pub closes :
      ((i : ℕ) × (first ≤ i)
        × (i ≤ c.act_var)
        × ((get_or c.locals i no_local).is_captured ≡ true)
        × (emitted ≡ some (op_ad (code op_close_upvalues) (first - 1) 0)))
      ⊎ (((i : ℕ) → first ≤ i → i ≤ c.act_var → (get_or c.locals i no_local).is_captured ≡ false)
          × (emitted ≡ none))

end_scope_active :
    (c : Scope) (first : ℕ) (b : Bool) → IsBlock c first → (end_scope c b).0.act_var ≡ first - 1
unfolding end_scope
end_scope_active c first b k =
    let left =
      left_from_lem c.locals c.scope_depth first (c.act_var + 1) k.behind_this k.at_most
        (λ i lo hi. k.inner i lo (omega arith)) k.outer in
    rw left (omega (arith, k.behind_this, k.at_most, k.small))

end_scope_emits :
    (c : Scope) (b : Bool)
    → (end_scope c b).1
      ≡ (if b then some (op_ad (code op_close_upvalues) (end_scope c b).0.act_var 0) else none)
unfolding end_scope
end_scope_emits c b = refl

close_when :
    (b : Bool) (a first : ℕ)
    → b ≡ true
    → a ≡ first
    → (if b then some (op_ad (code op_close_upvalues) a 0) else none)
      ≡ some (op_ad (code op_close_upvalues) first 0)
close_when b a first is e = rw (is, e) refl

no_close :
    (b : Bool) (a : ℕ)
    → b ≡ false
    → (if b then some (op_ad (code op_close_upvalues) a 0) else none) ≡ none
no_close b a off = rw off refl

-- `endScope` at the end of a block, given what `localIsCaptured` says: exactly the locals of the block go, so
-- that names mean what they meant in front of it, their registers are free again, and the upvalues
-- from the register of the first of them on are closed if and only if one of them is captured.
pub end_scope-Ends :
    (c : Scope) (first : ℕ)
    → IsBlock c first
    → Ends c first (end_scope c (local_is_captured c)).0 (end_scope c (local_is_captured c)).1
unfolding end_scope local_is_captured
end_scope-Ends c first k =
    let active = end_scope_active c first (local_is_captured c) k in
    let emits = end_scope_emits c (local_is_captured c) in
    record {
      active = active;
      registers = active;
      depth = refl;
      visible = λ name.
          let at : (end_scope c (local_is_captured c)).0.act_var + 1 ≡ first =
            omega (arith, active, k.behind_this) in
          rw at at (resolve_local-Resolves (end_scope c (local_is_captured c)).0 name);
      closes =
          elim (captured_from_lem c.locals c.scope_depth first (c.act_var + 1) k.behind_this
            k.at_most (λ i lo hi. k.inner i lo (omega arith)) k.outer) [
              | inl (run, (i, lo, hi, is)) ↦ inl (
                i,
                lo,
                omega arith,
                is,
                emits ∙ close_when (local_is_captured c) _ (first - 1) run active,
              )
              | inr (run, none_is) ↦ inr (
                λ i lo hi. none_is i lo (omega arith),
                emits ∙ no_close (local_is_captured c) _ run,
              )
            ];
    }
