-- ===== src/Collector/Walk.antt =====
-- src/memory.c, `markThread`: the walk through a stack meets the objects that its cells hold.
use native.Mathlib.Decide.{dec_lt, ℕ_discrete}
use xan.Base.{
  ℕ, zero, suc, ◌+◌, ◌-◌, ◌≤◌, ◌<◌, ◌≡◌, refl, sym, ◌∙◌, ap, inl, inr, arith, true, false, List,
  ◌∷◌, ◌++◌, leb, if◌then◌else◌, get_or, length, IsIn, IsIn-append, IsIn-left, IsIn-right,
  Bool-cases, get_or-beyond, ◌↔◌,
}
use xan.Bytecode.{ra, u8}
use xan.Value.{Value, nil, obj, is_nil}
use xan.Collector.Roots.{
  Slot, value, shift, return_to, value_at, frame_size, registers, walk_frames, walk,
}

module _ {D : Type 0} where
  abbrev pub cell : List (Slot D) → ℕ → Slot D
  cell stack i = get_or stack i (value nil)

  -- The frames of a stack, from the base of the last one down to the bottom of the stack, as `incCFrame` and
  -- `incFrame` have saved them: in `base[-2]` the distance and in `base[-3]` nil, or an address to return
  -- to and the function. The cell at the bottom is not used.
  pub data IsLinked (stack : List (Slot D)) : ℕ → Type 0 where
    bottom : cell stack 0 ≡ value nil → IsLinked stack 0
    c_frame :
        (below distance : ℕ)
        → 3 ≤ distance
        → cell stack (below + distance - 2) ≡ shift distance
        → cell stack (below + distance - 3) ≡ value nil
        → IsLinked stack below
        → IsLinked stack (below + distance)
    frame :
        (below ip bytecode : ℕ) (function : Value D)
        → 1 ≤ u8 (ra bytecode + 1)
        → cell stack (below + (u8 (ra bytecode + 1) + 2) - 2) ≡ return_to ip bytecode
        → cell stack (below + (u8 (ra bytecode + 1) + 2) - 3) ≡ value function
        → is_nil function ≡ false
        → IsLinked stack below
        → IsLinked stack (below + (u8 (ra bytecode + 1) + 2))

  value_at-cell :
      (stack : List (Slot D)) (i : ℕ) (v : Value D) → cell stack i ≡ value v → v ≡ value_at stack i
  value_at-cell stack i v at = rw (value_at, at) refl

  registers-met :
      (stack : List (Slot D)) (base n i : ℕ) (v : Value D)
      → i < n
      → base ≤ i + 1
      → cell stack i ≡ value v
      → IsIn v (registers stack base n)
  unfolding registers
  registers-met stack base zero i v lt on at = absurd (omega arith)
  registers-met stack base (suc n) i v lt on at =
      let test : leb base (suc n) ≡ true = ground arith in
      rw test (elim (ℕ_discrete i n) [
        | yes e ↦ inl (rw e at (value_at-cell stack i v at))
        | no ne ↦ inr (registers-met stack base n i v (omega arith) on at)
      ])

  -- With a base above 0 there are three cells below it at least.
  base-IsLinked : (stack : List (Slot D)) (base : ℕ) → IsLinked stack base → 1 ≤ base → 3 ≤ base
  base-IsLinked stack base (bottom first) above = absurd (omega arith)
  base-IsLinked stack base (c_frame below distance far link function rest) above = omega arith
  base-IsLinked stack base (frame below ip bytecode f far link function live rest) above =
      omega arith

  -- One round of the walk, from a base above 0: the base it goes on from.
  walk_frames_round :
      (fuel : ℕ) (stack : List (Slot D)) (base below n : ℕ)
      → 3 ≤ base
      → base ≤ n
      → base - frame_size (is_nil (value_at stack (base - 3))) (cell stack (base - 2)) ≡ below
      → walk_frames (suc fuel) stack base n
        ≡ registers stack base n
          ++ value_at stack (base - 3) ∷ walk_frames fuel stack below (base - 3)
  unfolding walk_frames
  walk_frames_round fuel stack base below n high on size =
      let on' : leb base n ≡ true = ground arith in
      let more : leb n 1 ≡ false = ground arith in
      let above : leb (base - 1) 1 ≡ false = ground arith in
      let at : base - 1 - 2 ≡ base - 3 = omega arith in rw (on', more, above, at, size) refl

  walk_frames_bottom :
      (fuel : ℕ) (stack : List (Slot D)) (n : ℕ)
      → 2 ≤ n
      → walk_frames (suc fuel) stack 0 n ≡ registers stack 0 n
  unfolding walk_frames
  walk_frames_bottom fuel stack n two =
      let more : leb n 1 ≡ false = ground arith in
      let on : leb 0 n ≡ true = ground arith in rw (more, on) refl

  frame_size-IsLinked :
      (stack : List (Slot D)) (base : ℕ)
      → IsLinked stack base
      → 3 ≤ base
      → (below : ℕ) × (below + 3 ≤ base)
        × IsLinked stack below
        × (base - frame_size (is_nil (value_at stack (base - 3))) (cell stack (base - 2)) ≡ below)
        × ((v : Value D) → cell stack (base - 2) ≡ value v → ⊥)
  frame_size-IsLinked stack base (bottom first) high = absurd (omega arith)
  frame_size-IsLinked stack base (c_frame below distance far link function rest) high = (
    below,
    omega arith,
    rest,
    rw (link, ← value_at-cell stack (base - 3) nil function) (omega arith),
    λ v at. clashing (sym link ∙ at),
  )
    where
      clashing : {n : ℕ} {v : Value D} → shift n ≡ value v → ⊥
      clashing e = cc
  frame_size-IsLinked stack base (frame below ip bytecode f far link function live rest) high = (
    below,
    omega arith,
    rest,
    rw (link, ← value_at-cell stack (base - 3) f function, live) (omega arith),
    λ v at. clashing (sym link ∙ at),
  )
    where
      clashing : {i b : ℕ} {v : Value D} → return_to i b ≡ value v → ⊥
      clashing e = cc

  walk_frames-met :
      (fuel : ℕ) (stack : List (Slot D)) (base n i : ℕ) (v : Value D)
      → n ≤ fuel
      → base ≤ n
      → IsLinked stack base
      → 1 ≤ i
      → i < n
      → cell stack i ≡ value v
      → IsIn v (walk_frames fuel stack base n)
  walk_frames-met zero stack base n i v enough on linked pos lt at = absurd (omega arith)
  walk_frames-met (suc fuel) stack base n i v enough on linked pos lt at =
      elim (ℕ_discrete base 0) [
        | yes e ↦
            rw (e, walk_frames_bottom fuel stack n (omega arith))
              (registers-met stack 0 n i v lt (omega arith) at)
        | no above ↦
            let high = base-IsLinked stack base linked (omega arith) in
            let (below, far, rest, size, saved) = frame_size-IsLinked stack base linked high in
            rw (walk_frames_round fuel stack base below n high on size) (
              go high below far saved (λ low.
                walk_frames-met fuel stack below (base - 3) i v (omega arith) (omega arith) rest pos
                  low at))
      ]
    where
      go :
          3 ≤ base
          → (below : ℕ) → below + 3 ≤ base
          → ((v : Value D) → cell stack (base - 2) ≡ value v → ⊥)
          → (i < base - 3 → IsIn v (walk_frames fuel stack below (base - 3)))
          → IsIn v (
              registers stack base n
              ++ value_at stack (base - 3) ∷ walk_frames fuel stack below (base - 3))
      go high below far saved again = elim (dec_lt i (base - 1)) [
        | no here ↦ IsIn-left v _ _ (registers-met stack base n i v lt (omega arith) at)
        | yes under ↦ IsIn-right v (registers stack base n) _ (elim (ℕ_discrete i (base - 3)) [
          | yes e ↦ inl (rw e at (value_at-cell stack i v at))
          | no ne ↦ elim (ℕ_discrete i (base - 2)) [
            | yes e ↦ absurd (saved v (rw e at at))
            | no ne' ↦ inr (again (omega arith))
          ]
        ])
      ]

  from_cell :
      (c : Slot D) (a : ℕ)
      → (elim c [ value v ↦ v | shift n ↦ nil | return_to ip b ↦ nil ]) ≡ obj a
      → c ≡ value (obj a)
  from_cell (value v) a e = ap value e
  from_cell (shift n) a e = cc
  from_cell (return_to ip b) a e = cc

  Found : List (Slot D) → ℕ → Type 0
  Found stack a = (i : ℕ) × (cell stack i ≡ value (obj a))

  registers-Found :
      (stack : List (Slot D)) (base n a : ℕ) → IsIn (obj a) (registers stack base n) → Found stack a
  unfolding registers Found
  registers-Found stack base zero a i = elim i [ ]
  registers-Found stack base (suc n) a i = elim (Bool-cases (leb base (suc n))) [
    | inl on ↦ elim (rw on at i) [
      | inl e ↦ (n, from_cell (cell stack n) a (sym e))
      | inr j ↦ registers-Found stack base n a j
    ]
    | inr off ↦ absurd (rw off at i)
  ]

  walk_frames-Found :
      (fuel : ℕ) (stack : List (Slot D)) (base n a : ℕ)
      → IsIn (obj a) (walk_frames fuel stack base n)
      → Found stack a
  unfolding walk_frames Found
  walk_frames-Found zero stack base n a i = elim i [ ]
  walk_frames-Found (suc fuel) stack base n a i = elim (Bool-cases (leb n 1)) [
    | inl done ↦ absurd (rw done at i)
    | inr more ↦ elim (Bool-cases (leb (if leb base n then base - 1 else n) 1)) [
      | inl last ↦ registers-Found stack base n a (rw (more, last) at i)
      | inr under ↦ elim (IsIn-append (obj a) (registers stack base n) _ (rw (more, under) at i)) [
        | inl j ↦ registers-Found stack base n a j
        | inr (inl e) ↦ (_, from_cell (cell stack _) a (sym e))
        | inr (inr j) ↦ walk_frames-Found fuel stack _ _ a j
      ]
    ]
  ]

  nil_cell : {c : Slot D} {a : ℕ} → c ≡ value nil → c ≡ value (obj a) → ⊥
  nil_cell e e' = cc

  pub walk-Found :
      (stack : List (Slot D)) (base a : ℕ)
      → IsIn (obj a) (walk stack base)
      → (i : ℕ) × (cell stack i ≡ value (obj a))
  unfolding walk Found
  walk-Found stack base a i = walk_frames-Found (length stack) stack base (length stack) a i

  pub walk-IsLinked :
      (stack : List (Slot D)) (base a : ℕ)
      → IsLinked stack base
      → base ≤ length stack
      → IsIn (obj a) (walk stack base) ↔ ((i : ℕ) × (cell stack i ≡ value (obj a)))
  unfolding walk
  walk-IsLinked stack base a linked on = (
    λ i. walk-Found stack base a (unfold walk in i),
    λ (i, at).
        walk_frames-met (length stack) stack base (length stack) i (obj a) (omega arith) on linked
          (used stack base linked i at) (inside i at) at,
  )
    where
      inside : (i : ℕ) → cell stack i ≡ value (obj a) → i < length stack
      inside i at = elim (dec_lt i (length stack)) [
        | yes lt ↦ lt
        | no ge ↦ absurd (nil_cell (get_or-beyond stack i (value nil) (omega arith)) at)
      ]

      used : (s : List (Slot D)) (b : ℕ) → IsLinked s b → (i : ℕ) → cell s i ≡ value (obj a) → 1 ≤ i
      used s b (bottom first) zero at = absurd (nil_cell first at)
      used s b (c_frame below distance far link function rest) i at = used s below rest i at
      used s b (frame below ip bytecode f far link function live rest) i at = used s below rest i at
      used s b (bottom first) (suc i) at = omega arith
