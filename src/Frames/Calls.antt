-- ===== src/Frames/Calls.antt =====
-- src/vm.h and src/vm.c: `decCFrame` and `decFrame`, which leave a frame, and `call`.
use native.Mathlib.Decide.{dec_lt}
use mathlib.Core.Path.{subst}
use xan.Base.{
  some-injective, ℕ, sym, ◌+◌, ◌-◌, ◌<◌, ◌≤◌, ◌≡◌, refl, ◌∙◌, arith, true, false, Option, some, ltb,
  get_or,
}
use xan.Bytecode.{ra, u8}
use xan.Value.{nil, obj}
use xan.Collector.Roots.{Slot, value, shift, return_to}
use xan.Frames.{
  CallStack, Realloc, slot_at, inc_c_frame, inc_frame, dec_c_frame, dec_frame, Function, Called,
  too_few, too_many, entered, call,
}
use xan.Frames.Growth.{IsStack}
use xan.Frames.Entering.{IsEntered, inc_c_frame-IsEntered, inc_frame-IsEntered}

module _ {D : Type 0} where
  -- The stack when a callee is done: it may have moved, and anything may have been written but `base[-2]` and
  -- `base[-3]`, which are what they were in `t'`.
  pub record IsDone (t' t2 : CallStack D) : Type 0 where
    pub base_same : t2.base + t'.address ≡ t'.base + t2.address
    pub on : t2.address ≤ t2.base
    pub link_kept : slot_at t2 (t2.base - 2 - t2.address) ≡ slot_at t' (t'.base - 2 - t'.address)
    pub function_kept :
        slot_at t2 (t2.base - 3 - t2.address) ≡ slot_at t' (t'.base - 3 - t'.address)

  back_at_base :
      (t t' t2 : CallStack D) (distance stack_used : ℕ) (link function : Slot D)
      → t.address ≤ t.base
      → IsEntered t t' stack_used distance link function
      → IsDone t' t2
      → t2.base - (distance + 1) + t.address ≡ t.base + t2.address
  back_at_base t t' t2 distance stack_used link function on e d =
      omega (arith, e.base_at, d.base_same, d.on, on, e.stack.base_on)

  dec_c_frame_lem :
      (t2 : CallStack D) (n : ℕ)
      → slot_at t2 (t2.base - 2 - t2.address) ≡ shift n
      → slot_at t2 (t2.base - 3 - t2.address) ≡ value nil
      → dec_c_frame t2 ≡ some (record t2 { base = t2.base - n })
  unfolding dec_c_frame
  dec_c_frame_lem t2 n at function = rw (dec_c_frame, at, function) refl

  dec_frame_lem :
      (t2 : CallStack D) (closure ip bytecode : ℕ)
      → slot_at t2 (t2.base - 2 - t2.address) ≡ return_to ip bytecode
      → slot_at t2 (t2.base - 3 - t2.address) ≡ value (obj closure)
      → dec_frame t2 ≡ some (ip, record t2 { base = t2.base - (u8 (ra bytecode + 1) + 2) })
  unfolding dec_frame
  dec_frame_lem t2 closure ip bytecode at function = rw (dec_frame, at, function) refl

module _ {D : Type 0} (R : Realloc D) where
  -- `decCFrame` after `incCFrame` at a distance of 2 or more, on a well-formed stack: whatever the native function has done
  -- in between, if the stack's base is at the same distance from its start and `base[-2]` and `base[-3]` hold what `incCFrame`
  -- has written, then `decCFrame` succeeds, the base is the caller's again, at the same distance from the
  -- start of the stack, and no cell changes.
  pub dec_c_frame-inc_c_frame :
      (t t' t2 : CallStack D) (stack_used distance : ℕ)
      → IsStack t
      → 2 ≤ distance
      → inc_c_frame R t stack_used distance ≡ some t'
      → IsDone t' t2
      → (t3 : CallStack D) × (dec_c_frame t2 ≡ some t3)
        × (t3.base + t.address ≡ t.base + t3.address)
        × (t3.cells ≡ t2.cells)
  dec_c_frame-inc_c_frame t t' t2 stack_used distance s far run d =
      let (t1, run1, e1) = inc_c_frame-IsEntered R t stack_used distance s far in
      let e =
        subst (λ x. IsEntered t x stack_used distance (shift (distance + 1)) (value nil))
          (some-injective (sym run1 ∙ run)) e1 in
      (
        record t2 { base = t2.base - (distance + 1) },
        dec_c_frame_lem t2 (distance + 1) (d.link_kept ∙ e.link_at)
            (d.function_kept ∙ e.function_at),
        back_at_base t t' t2 distance stack_used (shift (distance + 1)) (value nil) s.base_on e d,
        refl,
      )

  -- `decFrame` after `incFrame` as `call` calls it, for the register `callee_reg` of the callee below 255 and an instruction
  -- in front of `ip` that names that register, on a well-formed stack: whatever the callee has done in between, if the
  -- stack's base is at the same distance from its start and `base[-2]` and `base[-3]` hold what `incFrame` has written, then `decFrame`
  -- succeeds and returns `ip`, the base is the caller's again, at the same distance from the start of the stack, and no
  -- cell changes.
  pub dec_frame-inc_frame :
      (t t' t2 : CallStack D) (stack_used callee_reg closure ip bytecode : ℕ)
      → IsStack t
      → ra bytecode ≡ callee_reg
      → callee_reg < 255
      → inc_frame R t stack_used (callee_reg + 2) closure ip bytecode ≡ some t'
      → IsDone t' t2
      → (t3 : CallStack D) × (dec_frame t2 ≡ some (ip, t3))
        × (t3.base + t.address ≡ t.base + t3.address)
        × (t3.cells ≡ t2.cells)
  dec_frame-inc_frame t t' t2 stack_used callee_reg closure ip bytecode s reg small run d =
      let (t1, run1, e1) =
        inc_frame-IsEntered R t stack_used (callee_reg + 2) closure ip bytecode s (omega arith) in
      let e =
        subst
          (λ x.
            IsEntered t x stack_used (callee_reg + 2) (return_to ip bytecode) (value (obj closure)))
          (some-injective (sym run1 ∙ run)) e1 in
      let distance : u8 (ra bytecode + 1) + 2 ≡ callee_reg + 2 + 1 = omega (arith, reg) in
      (
        record t2 { base = t2.base - (u8 (ra bytecode + 1) + 2) },
        dec_frame_lem t2 closure ip bytecode (d.link_kept ∙ e.link_at)
            (d.function_kept ∙ e.function_at),
        rw distance (
            back_at_base t t' t2 (callee_reg + 2) stack_used (return_to ip bytecode)
              (value (obj closure)) s.base_on e d),
        refl,
      )

  -- The three outcomes of `call` on a well-formed stack.
  pub data Calls (t : CallStack D) (f : Function) (closure callee_reg arg_count ip bytecode : ℕ)
      : Option (Called D) → Type 0 where
    fewer :
        arg_count < f.min_arity → Calls t f closure callee_reg arg_count ip bytecode (some too_few)
    more :
        f.max_arity < arg_count → Calls t f closure callee_reg arg_count ip bytecode (some too_many)
    enters :
        (t' : CallStack D)
        → f.min_arity ≤ arg_count
        → arg_count ≤ f.max_arity
        → IsEntered t t' f.stack_used (callee_reg + 2) (return_to ip bytecode) (value (obj closure))
        → Calls t f closure callee_reg arg_count ip bytecode
            (some (entered t' (f.code + get_or f.code_offsets (arg_count - f.min_arity) 0)))

  call_run :
      (t t' : CallStack D) (f : Function) (closure callee_reg arg_count ip bytecode : ℕ)
      → f.min_arity ≤ arg_count
      → arg_count ≤ f.max_arity
      → inc_frame R t f.stack_used (callee_reg + 2) closure ip bytecode ≡ some t'
      → call R t f closure callee_reg arg_count ip bytecode
        ≡ some (entered t' (f.code + get_or f.code_offsets (arg_count - f.min_arity) 0))
  unfolding call
  call_run t t' f closure callee_reg arg_count ip bytecode low high run =
      let test : ltb arg_count f.min_arity ≡ false = ground arith in
      let test' : ltb f.max_arity arg_count ≡ false = ground arith in rw (test, test', run) refl

  call_few :
      (t : CallStack D) (f : Function) (closure callee_reg arg_count ip bytecode : ℕ)
      → arg_count < f.min_arity
      → call R t f closure callee_reg arg_count ip bytecode ≡ some too_few
  unfolding call
  call_few t f closure callee_reg arg_count ip bytecode lt =
      let test : ltb arg_count f.min_arity ≡ true = ground arith in rw test refl

  call_many :
      (t : CallStack D) (f : Function) (closure callee_reg arg_count ip bytecode : ℕ)
      → f.min_arity ≤ arg_count
      → f.max_arity < arg_count
      → call R t f closure callee_reg arg_count ip bytecode ≡ some too_many
  unfolding call
  call_many t f closure callee_reg arg_count ip bytecode low lt =
      let test : ltb arg_count f.min_arity ≡ false = ground arith in
      let test' : ltb f.max_arity arg_count ≡ true = ground arith in rw (test, test') refl

  -- `call` ends: with an exception if there are too few or too many arguments, else in the callee's
  -- frame, with its registers above the caller's, at the code for that many arguments.
  pub call-Calls :
      (t : CallStack D) (f : Function) (closure callee_reg arg_count ip bytecode : ℕ)
      → IsStack t
      → Calls t f closure callee_reg arg_count ip bytecode
          (call R t f closure callee_reg arg_count ip bytecode)
  call-Calls t f closure callee_reg arg_count ip bytecode s = elim (dec_lt arg_count f.min_arity) [
    | yes lt ↦ rw (call_few t f closure callee_reg arg_count ip bytecode lt) (fewer lt)
    | no ge ↦ elim (dec_lt f.max_arity arg_count) [
      | yes gt ↦
          rw (call_many t f closure callee_reg arg_count ip bytecode (omega arith) gt) (more gt)
      | no le ↦
          let (t', run, e) =
            inc_frame-IsEntered R t f.stack_used (callee_reg + 2) closure ip bytecode s
              (omega arith) in
          rw
            (call_run t t' f closure callee_reg arg_count ip bytecode (omega arith) (omega arith)
              run)
            (enters t' (omega arith) (omega arith) e)
    ]
  ]
