-- ===== src/Run/Handlers.antt =====
-- src/vm.c, `run`: the handlers of exceptions inside one function.
use xan.Base.{
  ℕ, ◌+◌, ◌^◌, ◌<◌, ◌≡◌, refl, sym, ap, ◌∙◌, Bool, List, ◌∷◌, some, get_or, length, ltb, true,
  arith,
}
use xan.Bytecode.{opcode, ra}
use xan.Bytecode.Opcode.{of_code, op_begin_try}
use xan.Value.{Value, Number}
use xan.Compiler.{jump_next}
use xan.Run.{
  Arithmetic, Running, Outcome, continues, throws, elsewhere, overflows, try_max, assign, execute,
  step, unwind,
}
use xan.Run.Jumps.{distance_lem, step_lem}

module _ (N : Number) (M : Arithmetic N.Double) (is_string is_empty : ℕ → Bool) where
  begin_try_lem :
      (s : Running N.Double) (handler : ℕ)
      → of_code (opcode (get_or s.code s.ip 0)) ≡ some op_begin_try
      → s.ip < 2 ^ 31
      → handler < 2 ^ 31
      → jump_next s.code s.ip ≡ handler
      → length s.tries < try_max
      → step N M is_string is_empty s
        ≡ continues
            (record s { ip = s.ip + 1; tries = (handler, ra (get_or s.code s.ip 0)) ∷ s.tries })
  unfolding execute
  begin_try_lem s handler is source_fits target_fits next room =
      let test : ltb (length s.tries) 16 ≡ true = ground arith in
      step_lem N M is_string is_empty s op_begin_try is
      ∙ rw (distance_lem s.code s.ip handler source_fits target_fits next, test) refl

  state : Outcome N.Double → List (ℕ × ℕ)
  state o = elim o [
    | continues s ↦ s.tries
    | throws s ↦ s.tries
    | elsewhere s ↦ s.tries
    | overflows s ↦ s.tries
  ]

  -- An exception after `OP_BEGIN_TRY`, where that instruction and its target are at positions below 2 ^ 31 and fewer
  -- than `TRY_MAX` handlers are in place before it: whatever the function has done in between, if the
  -- handlers are again those behind that instruction then it goes on at the target, with the exception in the
  -- register of that instruction and with the handlers from before.
  pub unwind-step :
      (s s' later : Running N.Double) (handler : ℕ) (exception : Value N.Double)
      → of_code (opcode (get_or s.code s.ip 0)) ≡ some op_begin_try
      → s.ip < 2 ^ 31
      → handler < 2 ^ 31
      → jump_next s.code s.ip ≡ handler
      → length s.tries < try_max
      → step N M is_string is_empty s ≡ continues s'
      → later.tries ≡ s'.tries
      → unwind later exception
        ≡ some (record (assign later (ra (get_or s.code s.ip 0)) exception) {
          ip = handler;
          tries = s.tries;
        })
  unfolding unwind state
  unwind-step s s' later handler exception is source_fits target_fits next room run same =
      let tries : later.tries ≡ (handler, ra (get_or s.code s.ip 0)) ∷ s.tries =
        same ∙ ap state (sym run ∙ begin_try_lem s handler is source_fits target_fits next room) in
      rw (unwind, tries) refl
