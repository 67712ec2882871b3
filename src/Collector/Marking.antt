-- ===== src/Collector/Marking.antt =====
-- src/memory.c: what marking some pointers does to a heap.
use native.Mathlib.Decide.{dec_lt}
use xan.Base.{
  clash, some-injective, IsIn-append, IsIn-left, IsIn-right, ℕ, zero, suc, ◌+◌, ◌<◌, ◌≤◌, ◌≡◌, refl,
  ap, ◌∙◌, ◌⊎◌, inl, inr, arith, Bool, true, false, List, [], ◌∷◌, ◌++◌, none, some, if◌then◌else◌,
  get_or, set, length, length-set, get_or-set, get_or-beyond, set-beyond, Bool-cases, IsIn, ◌==◌,
}
use xan.Collector.{
  Pointer, Body, Object, Heap, no_object, object_at, put_object, mark_object, mark_all,
}

-- How many objects are white.
unfoldable pub whites : {D : Type 0} → List (Object D) → ℕ
whites [] = 0
whites (o ∷ os) = (if o.is_black then 0 else 1) + whites os

some-none : {a : ℕ} → some a ≡ none → ⊥
some-none h = cc

module _ {D : Type 0} where
  abbrev pub black : Heap D → ℕ → Bool
  black h a = (object_at h a).is_black

  abbrev pub body_at : Heap D → ℕ → Body D
  body_at h a = (object_at h a).body

  pub whites-le : (os : List (Object D)) → whites os ≤ length os
  unfolding whites
  whites-le [] = omega arith
  whites-le (o ∷ os) = ground (arith, whites-le os)

  whites-set :
      (os : List (Object D)) (a : ℕ) (o : Object D)
      → (get_or os a no_object).is_black ≡ false
      → o.is_black ≡ true
      → whites (set os a o) + 1 ≡ whites os
  unfolding whites
  whites-set [] a o white turned = cc
  whites-set (x ∷ os) zero o white turned = rw (white, turned) (omega arith)
  whites-set (x ∷ os) (suc a) o white turned = omega (arith, whites-set os a o white turned)

  -- What marking the pointers `ps` may do.
  pub record Marks (ps : List Pointer) (h h' : Heap D) : Type 0 where
    pub bodies : (a : ℕ) → body_at h' a ≡ body_at h a
    pub stays : (a : ℕ) → black h a ≡ true → black h' a ≡ true
    pub marked : (a : ℕ) → IsIn (some a) ps → black h' a ≡ true
    pub new : (a : ℕ) → black h' a ≡ true → (black h a ≡ true) ⊎ IsIn a h'.gray_stack
    pub kept : (a : ℕ) → IsIn a h.gray_stack → IsIn a h'.gray_stack
    pub pushed :
        (a : ℕ)
        → IsIn a h'.gray_stack
        → IsIn a h.gray_stack ⊎ (IsIn (some a) ps × (black h a ≡ false))
    pub measure : whites h'.cells + length h'.gray_stack ≡ whites h.cells + length h.gray_stack
    pub size : length h'.cells ≡ length h.cells
    pub objects_same : h'.objects ≡ h.objects

  pub in_range : (h : Heap D) (a : ℕ) → black h a ≡ false → a < length h.cells
  in_range h a white = elim (dec_lt a (length h.cells)) [
    | yes lt ↦ lt
    | no ge ↦ absurd (
        clash (ap (λ (o : Object D). o.is_black) (get_or-beyond h.cells a no_object (omega arith)))
          white)
  ]

  -- A write to an object that is there.
  pub object_at-put :
      (h : Heap D) (a b : ℕ) (o : Object D)
      → a < length h.cells
      → object_at (put_object h a o) b ≡ (if b == a then o else object_at h b)
  object_at-put h a b o inside = get_or-set h.cells a b o no_object inside

  Marks-same :
      (h : Heap D) (ps : List Pointer)
      → ((a : ℕ) → IsIn (some a) ps → black h a ≡ true)
      → Marks ps h h
  Marks-same h ps already = record {
    bodies = λ a. refl;
    stays = λ a b. b;
    marked = already;
    new = λ a b. inl b;
    kept = λ a i. i;
    pushed = λ a i. inl i;
    measure = refl;
    size = refl;
    objects_same = refl;
  }

  -- An object that turns black and is pushed.
  turn-Marks :
      (h : Heap D) (a : ℕ)
      → black h a ≡ false
      → Marks (some a ∷ []) h (record h {
        cells = set h.cells a (record (object_at h a) { is_black = true });
        gray_stack = a ∷ h.gray_stack;
      })
  turn-Marks h a white =
      let o : Object D = record (object_at h a) { is_black = true } in
      let here = λ (b : ℕ). object_at-put h a b o (in_range h a white) in
      record {
        bodies = λ b. ground (arith, here b);
        stays = λ b is. ground (arith, here b, is);
        marked =
            λ b i. elim i [ inl e ↦ ground (arith, here b, some-injective e) | inr n ↦ elim n [ ] ];
        new = λ b is. ground (arith, here b, is);
        kept = λ b i. inr i;
        pushed = λ b i. elim i [ inl e ↦ inr (inl (ap some e), rw e white) | inr old ↦ inl old ];
        measure = omega (arith, whites-set h.cells a o white refl);
        size = length-set h.cells a o;
        objects_same = refl;
      }

  pub mark_object-Marks : (h : Heap D) (p : Pointer) → Marks (p ∷ []) h (mark_object h p)
  unfolding mark_object
  mark_object-Marks h none =
      Marks-same h (none ∷ []) (λ a i. elim i [ inl e ↦ absurd (some-none e) | inr n ↦ elim n [ ] ])
  mark_object-Marks h (some a) = elim (Bool-cases (black h a)) [
    | inl is ↦ rw is (
        Marks-same h (some a ∷ [])
          (λ b i. elim i [ inl e ↦ rw (some-injective e) is | inr n ↦ elim n [ ] ]))
    | inr white ↦ rw white (turn-Marks h a white)
  ]

  -- What is white afterwards was white before.
  back :
      {ps : List Pointer} {h h' : Heap D}
      → Marks ps h h'
      → (a : ℕ) → black h' a ≡ false
      → black h a ≡ false
  back {h = h} m a white = elim (Bool-cases (black h a)) [
    | inl is ↦ absurd (clash (m.stays a is) white)
    | inr was ↦ was
  ]

  pub Marks-trans :
      {ps qs : List Pointer} {h h' h'' : Heap D}
      → Marks ps h h'
      → Marks qs h' h''
      → Marks (ps ++ qs) h h''
  Marks-trans {ps = ps} {qs = qs} m n = record {
    bodies = λ a. n.bodies a ∙ m.bodies a;
    stays = λ a b. n.stays a (m.stays a b);
    marked = λ a i. elim (IsIn-append (some a) ps qs i) [
      | inl l ↦ n.stays a (m.marked a l)
      | inr r ↦ n.marked a r
    ];
    new = λ a b. elim (n.new a b) [
      | inl before ↦ elim (m.new a before) [ inl old ↦ inl old | inr i ↦ inr (n.kept a i) ]
      | inr i ↦ inr i
    ];
    kept = λ a i. n.kept a (m.kept a i);
    pushed = λ a i. elim (n.pushed a i) [
      | inl before ↦ elim (m.pushed a before) [
        | inl old ↦ inl old
        | inr (j, white) ↦ inr (IsIn-left (some a) ps qs j, white)
      ]
      | inr (j, white) ↦ inr (IsIn-right (some a) ps qs j, back m a white)
    ];
    measure = n.measure ∙ m.measure;
    size = n.size ∙ m.size;
    objects_same = n.objects_same ∙ m.objects_same;
  }

  pub mark_all-Marks : (h : Heap D) (ps : List Pointer) → Marks ps h (mark_all h ps)
  unfolding mark_all
  mark_all-Marks h [] = Marks-same h [] (λ a i. elim i [ ])
  mark_all-Marks h (p ∷ ps) =
      Marks-trans (mark_object-Marks h p) (mark_all-Marks (mark_object h p) ps)

  whites-same :
      (os : List (Object D)) (a : ℕ) (o : Object D)
      → o.is_black ≡ (get_or os a no_object).is_black
      → whites (set os a o) ≡ whites os
  unfolding whites
  whites-same [] a o same = refl
  whites-same (x ∷ os) zero o same = rw same refl
  whites-same (x ∷ os) (suc a) o same = rw (whites-same os a o same) refl

  -- A change of the mark `isGrey` only.
  pub record Recolours (h h' : Heap D) : Type 0 where
    pub black_same : (b : ℕ) → black h' b ≡ black h b
    pub body_same : (b : ℕ) → body_at h' b ≡ body_at h b
    pub whites_same : whites h'.cells ≡ whites h.cells
    pub size_same : length h'.cells ≡ length h.cells

  pub regrey-Recolours :
      (h : Heap D) (a : ℕ) (g : Bool)
      → Recolours h (put_object h a (record (object_at h a) { is_grey = g }))
  regrey-Recolours h a g = elim (dec_lt a (length h.cells)) [
    | yes inside ↦
        let o : Object D = record (object_at h a) { is_grey = g } in
        let here = λ (b : ℕ). object_at-put h a b o inside in
        record {
          black_same = λ b. ground (arith, here b);
          body_same = λ b. ground (arith, here b);
          whites_same = whites-same h.cells a o refl;
          size_same = length-set h.cells a o;
        }
    | no outside ↦
        let same = set-beyond h.cells a (record (object_at h a) { is_grey = g }) (omega arith) in
        record {
          black_same = λ b. rw same refl;
          body_same = λ b. rw same refl;
          whites_same = rw same refl;
          size_same = rw same refl;
        }
  ]
