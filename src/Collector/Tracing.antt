-- ===== src/Collector/Tracing.antt =====
-- src/memory.c: `traceReferences` ends, with the objects black that can be reached.
use xan.Base.{
  clash, ℕ, zero, suc, ◌+◌, ◌≤◌, ◌≡◌, ◌≢◌, refl, sym, ap, ◌∙◌, ◌⊎◌, inl, inr, arith, true, false,
  List, [], ◌∷◌, some, length, List-cases, IsIn,
}
use xan.Collector.{Pointer, Body, Heap, object_at, put_object, body_targets, blacken_object, trace}
use xan.Collector.References.{Refers, IsSound, Refers-body_targets, body_targets-Refers}
use xan.Collector.Marking.{whites, black, body_at, Marks, mark_all-Marks, regrey-Recolours}

module _ {D : Type 0} (body : ℕ → Body D) (roots : List Pointer) (weak : Pointer) where
  -- The objects that can be reached from the roots, not by way of the weak table.
  pub data Live : ℕ → Type 0 where
    root : {a : ℕ} → IsIn (some a) roots → Live a
    edge : {a b : ℕ} → Live a → some a ≢ weak → Refers (body a) b → Live b

module _ {D : Type 0} (body : ℕ → Body D) (roots : List Pointer) (weak : Pointer)
    (old : ℕ → Type 0) where
  -- The state of a trace. A black object is on the gray stack, or what it points to is black too.
  pub record IsTracing (h : Heap D) : Type 0 where
    pub bodies : (a : ℕ) → body_at h a ≡ body a
    pub closed :
        (a : ℕ)
        → black h a ≡ true
        → (some a ≡ weak)
          ⊎ (IsIn a h.gray_stack
              ⊎ ((b : ℕ) → IsIn (some b) (body_targets (body a)) → black h b ≡ true))
    pub gray_live : (a : ℕ) → IsIn a h.gray_stack → Live body roots weak a × (some a ≢ weak)
    pub black_live : (a : ℕ) → black h a ≡ true → old a ⊎ Live body roots weak a
    pub weak_black : (a : ℕ) → some a ≡ weak → black h a ≡ true

  -- Marking what a live object points to.
  pub marked-IsTracing :
      (h h' : Heap D) (ps : List Pointer)
      → IsTracing h
      → ((b : ℕ) → IsIn (some b) ps → Live body roots weak b)
      → Marks ps h h'
      → IsTracing h'
  marked-IsTracing h h' ps t live m = record {
    bodies = λ a. m.bodies a ∙ t.bodies a;
    closed = λ a is. elim (m.new a is) [
      | inr i ↦ inr (inl i)
      | inl was ↦ elim (t.closed a was) [
        | inl w ↦ inl w
        | inr (inl i) ↦ inr (inl (m.kept a i))
        | inr (inr done) ↦ inr (inr (λ b j. m.stays b (done b j)))
      ]
    ];
    gray_live = λ a i. elim (m.pushed a i) [
      | inl was ↦ t.gray_live a was
      | inr (j, white) ↦ (live a j, λ w. clash (t.weak_black a w) white)
    ];
    black_live = λ a is. elim (m.new a is) [
      | inl was ↦ t.black_live a was
      | inr i ↦ elim (m.pushed a i) [
        | inl before ↦ inr (t.gray_live a before).0
        | inr (j, white) ↦ inr (live a j)
      ]
    ];
    weak_black = λ a w. m.stays a (t.weak_black a w);
  }

  -- One round: the object from the top of the gray stack.
  blacken_object-IsTracing :
      (h : Heap D) (a : ℕ) (rest : List ℕ)
      → h.gray_stack ≡ a ∷ rest
      → IsTracing h
      → IsTracing (blacken_object (record h { gray_stack = rest }) a)
        × ((b : ℕ)
            → black h b ≡ true
            → black (blacken_object (record h { gray_stack = rest }) a) b ≡ true)
        × (whites (blacken_object (record h { gray_stack = rest }) a).cells
              + length (blacken_object (record h { gray_stack = rest }) a).gray_stack
              + 1
            ≡ whites h.cells + length h.gray_stack)
        × (length (blacken_object (record h { gray_stack = rest }) a).cells ≡ length h.cells)
        × ((blacken_object (record h { gray_stack = rest }) a).objects ≡ h.objects)
  unfolding blacken_object
  blacken_object-IsTracing h a rest top t =
      let r = regrey-Recolours (record h { gray_stack = rest }) a false in
      let ps = body_targets (body_at h a) in
      let m =
        mark_all-Marks
          (put_object (record h { gray_stack = rest }) a
            (record (object_at h a) { is_grey = false }))
          ps in
      let (live, strong) = t.gray_live a (rw top (inl refl)) in
      let was = λ (b : ℕ) (is : black h b ≡ true). m.stays b (r.black_same b ∙ is) in
      let at = t.bodies a in
      let next : (b : ℕ) → IsIn (some b) ps → Live body roots weak b =
        λ b j. edge live strong (rw (← at) (body_targets-Refers (body_at h a) b j)) in
      (
        record {
          bodies = λ b. m.bodies b ∙ r.body_same b ∙ t.bodies b;
          closed = λ b is. elim (m.new b is) [
            | inr i ↦ inr (inl i)
            | inl before ↦ elim (t.closed b (sym (r.black_same b) ∙ before)) [
              | inl w ↦ inl w
              | inr (inl i) ↦ elim (rw top at i) [
                | inl e ↦ inr (inr (λ c j. m.marked c (rw at (rw e at j))))
                | inr j ↦ inr (inl (m.kept b j))
              ]
              | inr (inr done) ↦ inr (inr (λ c j. was c (done c j)))
            ]
          ];
          gray_live = λ b i. elim (m.pushed b i) [
            | inl before ↦ t.gray_live b (rw top (inr before))
            | inr (j, white) ↦ (next b j, λ w. clash (r.black_same b ∙ t.weak_black b w) white)
          ];
          black_live = λ b is. elim (m.new b is) [
            | inl before ↦ t.black_live b (sym (r.black_same b) ∙ before)
            | inr i ↦ elim (m.pushed b i) [
              | inl before ↦ inr (t.gray_live b (rw top (inr before))).0
              | inr (j, white) ↦ inr (next b j)
            ]
          ];
          weak_black = λ b w. was b (t.weak_black b w);
        },
        was,
        omega (arith, m.measure, r.whites_same, ap length top),
        m.size ∙ r.size_same,
        m.objects_same,
      )

  -- Enough fuel: a round for each white object and for each entry of the gray stack.
  pub trace-IsTracing :
      (fuel : ℕ) (h : Heap D)
      → whites h.cells + length h.gray_stack ≤ fuel
      → IsTracing h
      → (h' : Heap D) × (trace fuel h ≡ some h')
        × IsTracing h'
        × (h'.gray_stack ≡ [])
        × ((b : ℕ) → black h b ≡ true → black h' b ≡ true)
        × (length h'.cells ≡ length h.cells)
        × (h'.objects ≡ h.objects)
  unfolding trace
  trace-IsTracing zero h enough t =
      let vacant : h.gray_stack ≡ [] = elim (List-cases h.gray_stack) [
        | inl none_left ↦ none_left
        | inr (a, rest, e) ↦ absurd (omega (arith, ap length e))
      ] in
      (h, rw vacant refl, t, vacant, λ b is. is, refl, refl)
  trace-IsTracing (suc fuel) h enough t = elim (List-cases h.gray_stack) [
    | inl vacant ↦ (h, rw vacant refl, t, vacant, λ b is. is, refl, refl)
    | inr (a, rest, e) ↦
        let (t1, grows, smaller, size, same) = blacken_object-IsTracing h a rest e t in
        let (h', run, t', vacant, grows', size', same') =
          trace-IsTracing fuel (blacken_object (record h { gray_stack = rest }) a) (omega arith)
            t1 in
        (h', rw e run, t', vacant, λ b is. grows' b (grows b is), size' ∙ size, same' ∙ same)
  ]

  -- With nothing gray, everything that can be reached from black objects is black.
  pub Live-black :
      (h : Heap D)
      → IsTracing h
      → h.gray_stack ≡ []
      → ((a : ℕ) → IsIn (some a) roots → black h a ≡ true)
      → ((a : ℕ) → IsSound (body a))
      → {a : ℕ} → Live body roots weak a
      → black h a ≡ true
  Live-black h t vacant from sound (root i) = from _ i
  Live-black h t vacant from sound (edge {a = a} {b = b} live strong i) =
      elim (t.closed a (Live-black h t vacant from sound live)) [
        | inl w ↦ absurd (strong w)
        | inr (inl j) ↦ absurd (rw vacant at j)
        | inr (inr done) ↦ done b (Refers-body_targets (body a) b (sound a) i)
      ]
