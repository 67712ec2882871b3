-- ===== src/Tests/Stacks.antt =====
-- The call stack of src/vm.c with eight cells at the address 100 and two open upvalues.
use xan.Base.{
  ℕ, zero, suc, ◌+◌, ◌<◌, ◌≤◌, ◌*◌, ◌≡◌, ◌⊎◌, inl, inr, refl, ap, arith, List, [], ◌∷◌, some,
  get_or, length,
}
use xan.Bytecode.{ra}
use xan.Value.{nil, number, obj}
use xan.Collector.Roots.{Slot, value, shift, return_to}
use xan.Frames.{
  OpenUpvalue, CallStack, Realloc, grow_stack, inc_c_frame, dec_c_frame, inc_frame, dec_frame,
  Function, call, capture_upvalue, close_upvalues,
}
use xan.Frames.Growth.{IsStack, IsMoved, grow_stack-IsMoved}
use xan.Frames.Calls.{dec_c_frame-inc_c_frame, dec_frame-inc_frame, Calls, call-Calls}
use xan.Frames.Upvalues.{IsDescending, Captures, capture_upvalue-Captures}
use xan.Frames.Closing.{Closes, close_upvalues-Closes}

abbrev resize : List (Slot ℕ) → ℕ → List (Slot ℕ)
resize cells zero = []
resize [] (suc n) = value nil ∷ resize [] n
resize (c ∷ cells) (suc n) = c ∷ resize cells n

length-resize : (cells : List (Slot ℕ)) (n : ℕ) → length (resize cells n) ≡ n
length-resize cells zero = refl
length-resize [] (suc n) = omega (arith, length-resize [] n)
length-resize (c ∷ cells) (suc n) = omega (arith, length-resize cells n)

get_or-resize :
    (cells : List (Slot ℕ)) (n i : ℕ) (d : Slot ℕ)
    → i < length cells
    → i < n
    → get_or (resize cells n) i d ≡ get_or cells i d
get_or-resize [] n i d lt inside = absurd (omega arith)
get_or-resize (c ∷ cells) zero i d lt inside = absurd (omega arith)
get_or-resize (c ∷ cells) (suc n) zero d lt inside = refl
get_or-resize (c ∷ cells) (suc n) (suc i) d lt inside =
    get_or-resize cells n i d (omega arith) (omega arith)

abbrev moving : Realloc ℕ
moving = record {
  new_address = λ cells n. 5000;
  new_cells = resize;
  new_cells_length = length-resize;
  new_cells_kept = get_or-resize;
}

abbrev small_stack : CallStack ℕ
small_stack = record {
  address = 100;
  cells =
      value nil
      ∷ value (number 1)
      ∷ value nil
      ∷ value (number 5)
      ∷ value (number 6)
      ∷ value (number 7)
      ∷ value nil
      ∷ value nil
      ∷ [];
  stack_top = 106;
  stack_last = 107;
  base = 103;
  open_upvalues =
      record { upvalue = 40; location = 105 } ∷ record { upvalue = 41; location = 103 } ∷ [];
  closed = [];
}

small_stack-IsStack : IsStack small_stack
small_stack-IsStack = record {
  base_on = omega arith;
  base_below = omega arith;
  top_below = omega arith;
  size = refl;
  upvalues_in = λ u i.
      let at = λ (v : OpenUpvalue) (e : u ≡ v). ap (λ (w : OpenUpvalue). w.location) e in
      elim i [
        | inl e ↦
            let p = at (record { upvalue = 40; location = 105 }) e in (omega arith, omega arith)
        | inr (inl e) ↦
            let p = at (record { upvalue = 41; location = 103 }) e in (omega arith, omega arith)
        | inr (inr n) ↦ elim n [ ]
      ];
}

grow_stack-IsMoved_example :
    (t' : CallStack ℕ) × (grow_stack moving small_stack 20 ≡ some t')
    × IsStack t'
    × IsMoved small_stack t'
    × (t'.stack_top + 100 ≡ 106 + t'.address)
    × (20 ≤ length t'.cells)
    × ((length t'.cells ≡ 8) ⊎ (length t'.cells ≤ 2 * 20 + 8))
grow_stack-IsMoved_example = grow_stack-IsMoved moving small_stack 20 small_stack-IsStack

abbrev with_frame : Slot ℕ → Slot ℕ → CallStack ℕ
with_frame function link = record small_stack {
  base = 106;
  stack_top = 107;
  cells =
      value nil
      ∷ value (number 1)
      ∷ value nil
      ∷ function
      ∷ link
      ∷ value (number 7)
      ∷ value nil
      ∷ value nil
      ∷ [];
}

small_inc_c_frame : inc_c_frame moving small_stack 0 2 ≡ some (with_frame (value nil) (shift 3))
unfolding inc_c_frame
small_inc_c_frame = refl

dec_c_frame-inc_c_frame_example :
    (t3 : CallStack ℕ) × (dec_c_frame (with_frame (value nil) (shift 3)) ≡ some t3)
    × (t3.base + 100 ≡ 103 + t3.address)
    × (t3.cells ≡ (with_frame (value nil) (shift 3)).cells)
dec_c_frame-inc_c_frame_example =
    dec_c_frame-inc_c_frame moving small_stack (with_frame (value nil) (shift 3))
      (with_frame (value nil) (shift 3)) 0 2 small_stack-IsStack (omega arith) small_inc_c_frame
      (record { base_same = refl; on = omega arith; link_kept = refl; function_kept = refl })

small_inc_frame :
    inc_frame moving small_stack 0 2 9 800 30 ≡ some (with_frame (value (obj 9)) (return_to 800 30))
unfolding inc_frame
small_inc_frame = refl

dec_frame-inc_frame_example :
    (t3 : CallStack ℕ) × (dec_frame (with_frame (value (obj 9)) (return_to 800 30))
      ≡ some (800, t3))
    × (t3.base + 100 ≡ 103 + t3.address)
    × (t3.cells ≡ (with_frame (value (obj 9)) (return_to 800 30)).cells)
dec_frame-inc_frame_example =
    dec_frame-inc_frame moving small_stack (with_frame (value (obj 9)) (return_to 800 30))
      (with_frame (value (obj 9)) (return_to 800 30)) 0 0 9 800 30 small_stack-IsStack
      (unfold ra in refl) (omega arith) small_inc_frame
      (record { base_same = refl; on = omega arith; link_kept = refl; function_kept = refl })

abbrev two_arities : Function
two_arities = record {
  min_arity = 1;
  max_arity = 2;
  stack_used = 6;
  code = 700;
  code_offsets = 0 ∷ 9 ∷ [];
}

call-Calls_example :
    Calls moving small_stack two_arities 12 2 2 800 0x010203
      (call moving small_stack two_arities 12 2 2 800 0x010203)
call-Calls_example =
    call-Calls moving small_stack two_arities 12 2 2 800 0x010203 small_stack-IsStack

capture_upvalue-Captures_example :
    IsDescending (capture_upvalue 42 small_stack 104).1.open_upvalues
    × Captures 42 104 small_stack.open_upvalues
        (capture_upvalue 42 small_stack 104).0
        (capture_upvalue 42 small_stack 104).1.open_upvalues
capture_upvalue-Captures_example = capture_upvalue-Captures 42 104 small_stack (omega arith, tt)

close_upvalues-Closes_example :
    Closes small_stack 104 small_stack.open_upvalues small_stack.closed
      (close_upvalues small_stack 104).open_upvalues
      (close_upvalues small_stack 104).closed
close_upvalues-Closes_example =
    close_upvalues-Closes small_stack 104 (omega arith, tt) ((omega arith, tt), (tt, tt))
