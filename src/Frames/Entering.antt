-- ===== src/Frames/Entering.antt =====
-- src/vm.h and src/vm.c: `incCFrame` and `incFrame`, which enter a frame.
use native.Mathlib.Decide.{dec_lt}
use xan.Base.{
  ℕ, ◌+◌, ◌-◌, ◌<◌, ◌≤◌, ◌≡◌, ◌≢◌, refl, ◌∙◌, arith, true, false, List, some, if◌then◌else◌, ltb,
  ◌==◌, get_or, get_or-set, set, length, length-set,
}
use xan.Value.{nil, obj}
use xan.Collector.Roots.{Slot, value, shift, return_to}
use xan.Frames.{
  CallStack, Realloc, relocate, slot_at, raise_top, make_room, save, inc_c_frame, inc_frame,
}
use xan.Frames.Growth.{IsStack, IsMoved, stays-IsMoved, grow_stack-IsMoved}

module _ {D : Type 0} where
  -- A frame on top of the caller's stack `t`: its base is `distance + 1` above, it has room for its registers, and
  -- but for the two cells that it saves the caller's cells are what they were.
  pub record IsEntered (t t' : CallStack D) (stack_used distance : ℕ) (link function : Slot D)
      : Type 0 where
    pub stack : IsStack t'
    pub base_at : t'.base + t.address ≡ t.base + distance + 1 + t'.address
    pub room : t'.base + stack_used + 1 ≤ t'.stack_top
    pub link_at : slot_at t' (t'.base - 2 - t'.address) ≡ link
    pub function_at : slot_at t' (t'.base - 3 - t'.address) ≡ function
    pub cells_same :
        (i : ℕ)
        → i < length t.cells
        → i + 1 + t.address ≢ t.base + distance
        → i + 2 + t.address ≢ t.base + distance
        → slot_at t' i ≡ slot_at t i
    pub upvalues_same : t'.open_upvalues ≡ relocate t.address t'.address t.open_upvalues
    pub closed_same : t'.closed ≡ t.closed

  raise_top-IsMoved :
      (t g : CallStack D) (used : ℕ)
      → IsStack g
      → IsMoved t g
      → used ≤ g.stack_last
      → IsStack (raise_top g used)
        × IsMoved t (raise_top g used)
        × (used ≤ (raise_top g used).stack_top)
        × ((raise_top g used).base ≡ g.base)
  raise_top-IsMoved t g used s m fits = elim (dec_lt g.stack_top used) [
    | no ge ↦
        let test : ltb g.stack_top used ≡ false = ground arith in rw test (s, m, omega arith, refl)
    | yes lt ↦
        let test : ltb g.stack_top used ≡ true = ground arith in
        rw test (
          record {
            base_on = s.base_on;
            base_below = omega (arith, s.base_below);
            top_below = fits;
            size = s.size;
            upvalues_in = s.upvalues_in;
          },
          record {
            base_same = m.base_same;
            cells_same = m.cells_same;
            more_cells = m.more_cells;
            upvalues_same = m.upvalues_same;
            closed_same = m.closed_same;
          },
          omega arith,
          refl,
        )
  ]

  two_sets :
      (cells : List (Slot D)) (a b i : ℕ) (x y d : Slot D)
      → a < length cells
      → b < length cells
      → get_or (set (set cells a x) b y) i d
        ≡ (if i == b then y else if i == a then x else get_or cells i d)
  two_sets cells a b i x y d la lb =
      rw
        (
          get_or-set (set cells a x) b i y d (rw (length-set cells a x) lb),
          get_or-set cells a i x d la,
        )
        refl

  -- The write of a frame.
  save-IsEntered :
      (t t' : CallStack D) (stack_used distance : ℕ) (link function : Slot D)
      → 2 ≤ distance
      → IsStack t
      → IsStack t'
      → IsMoved t t'
      → t'.base + distance + stack_used + 2 ≤ t'.stack_top
      → IsEntered t (save t' distance link function) stack_used distance link function
  unfolding save
  save-IsEntered t t' stack_used distance link function far s s' m room =
      let a = t'.base + distance + 1 - 2 - t'.address in
      let b = t'.base + distance + 1 - 3 - t'.address in
      let size = length-set (set t'.cells a link) b function ∙ length-set t'.cells a link in
      let inside : a < length t'.cells = omega (arith, s'.size, s'.base_on, s'.top_below) in
      let at = λ (i : ℕ). two_sets t'.cells a b i link function (value nil) inside (omega arith) in
      record {
        stack = record {
          base_on = omega (arith, s'.base_on);
          base_below = omega arith;
          top_below = s'.top_below;
          size = rw size s'.size;
          upvalues_in = s'.upvalues_in;
        };
        base_at = omega (arith, m.base_same);
        room = omega arith;
        link_at = ground (arith, at a, s'.base_on);
        function_at = ground (arith, at b);
        cells_same = λ i lt ne ne'.
            let off : i ≢ a = omega (arith, s'.base_on, s.base_on, m.base_same) in
            let off' : i ≢ b = omega (arith, s'.base_on, s.base_on, m.base_same) in
            ground (arith, at i, off, off', m.cells_same i lt);
        upvalues_same = m.upvalues_same;
        closed_same = m.closed_same;
      }

module _ {D : Type 0} (R : Realloc D) where
  make_room-IsMoved :
      (t : CallStack D) (stack_used distance : ℕ)
      → IsStack t
      → (t' : CallStack D) × (make_room R t stack_used distance ≡ some t')
        × IsStack t'
        × IsMoved t t'
        × (t'.base + distance + stack_used + 2 ≤ t'.stack_top)
  unfolding make_room
  make_room-IsMoved t stack_used distance s =
      elim (dec_lt t.stack_last (t.base + distance + stack_used + 2)) [
        | no ge ↦
            let test : ltb t.stack_last (t.base + distance + stack_used + 2) ≡ false =
              ground arith in
            let (s', m, room, same) =
              raise_top-IsMoved t t (t.base + distance + stack_used + 2) s (stays-IsMoved t)
                (omega arith) in
            (_, rw test refl, s', m, omega arith)
        | yes lt ↦
            let test : ltb t.stack_last (t.base + distance + stack_used + 2) ≡ true =
              ground arith in
            let (g, run, s1, m1, top, enough, bound) =
              grow_stack-IsMoved R t (t.base + distance + 1 - t.address + stack_used + 2) s in
            let (s', m, room, same) =
              raise_top-IsMoved t g (g.base + distance + stack_used + 2) s1 m1
                (omega (arith, s.base_on, s1.base_on, m1.base_same, s1.size)) in
            (_, rw (test, run) refl, s', m, omega arith)
      ]

  -- `incCFrame` ends, whether the stack has to grow or not: a frame of a native function, with the distance to
  -- the caller's base in `base[-2]`, on a well-formed stack.
  pub inc_c_frame-IsEntered :
      (t : CallStack D) (stack_used distance : ℕ)
      → IsStack t
      → 2 ≤ distance
      → (t' : CallStack D) × (inc_c_frame R t stack_used distance ≡ some t')
        × IsEntered t t' stack_used distance (shift (distance + 1)) (value nil)
  unfolding inc_c_frame
  inc_c_frame-IsEntered t stack_used distance s far =
      let (g, run, s', m, room) = make_room-IsMoved t stack_used distance s in
      (
        save g distance (shift (distance + 1)) (value nil),
        rw run refl,
        save-IsEntered t g stack_used distance (shift (distance + 1)) (value nil) far s s' m room,
      )

  pub inc_frame-IsEntered :
      (t : CallStack D) (stack_used distance function ip bytecode : ℕ)
      → IsStack t
      → 2 ≤ distance
      → (t' : CallStack D) × (inc_frame R t stack_used distance function ip bytecode ≡ some t')
        × IsEntered t t' stack_used distance (return_to ip bytecode) (value (obj function))
  unfolding inc_frame
  inc_frame-IsEntered t stack_used distance function ip bytecode s far =
      let (g, run, s', m, room) = make_room-IsMoved t stack_used distance s in
      (
        save g distance (return_to ip bytecode) (value (obj function)),
        rw run refl,
        save-IsEntered t g stack_used distance (return_to ip bytecode) (value (obj function)) far s
            s' m room,
      )
