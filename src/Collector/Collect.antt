-- ===== src/Collector/Collect.antt =====
-- src/memory.c: `collectGarbage` as a whole.
use native.Mathlib.Decide.{dec_lt, ℕ_discrete}
use xan.Base.{
  clash, ℕ, ◌+◌, ◌<◌, ◌≤◌, ◌≡◌, ◌≢◌, refl, sym, ap, ◌∙◌, ◌⊎◌, inl, inr, arith, true, false, List,
  [], ◌∷◌, none, some, length, length-set, set-beyond, get_or-beyond, IsIn, IsDistinct,
}
use xan.Collector.{
  Pointer, native_body, Object, Heap, Machine, no_object, object_at, mark_object, mark_all,
  blacken_only, mark_roots, body_targets, trace_references,
}
use xan.Collector.Marking.{
  whites-le, black, body_at, object_at-put, Marks, mark_all-Marks, mark_object-Marks,
}
use xan.Collector.Tracing.{Live, root, IsTracing, marked-IsTracing, trace-IsTracing, Live-black}
use xan.Collector.References.{IsSound}
use xan.Collector.Sweeping.{put-elsewhere}

-- The pointers that `markRoots` follows.
abbrev pub root_pointers : Machine → List Pointer
root_pointers vm = vm.init_string ∷ vm.new_string ∷ vm.globals ∷ vm.base_thread ∷ []

-- The objects that can be reached from those roots by the fields of objects, not by way of the table of strings.
abbrev pub IsLive : {D : Type 0} → Heap D → Machine → ℕ → Type 0
IsLive h vm a = Live (body_at h) (root_pointers vm) vm.strings a

-- A heap between two collections, before a major one. The frames of its threads are linked.
pub record IsQuiet {D : Type 0} (h : Heap D) (vm : Machine) : Type 0 where
  pub all_white : (a : ℕ) → a < length h.cells → black h a ≡ false
  pub no_gray : h.gray_stack ≡ []
  pub distinct : IsDistinct h.objects
  pub inside : (a : ℕ) → IsIn a h.objects → a < length h.cells
  pub listed : (a : ℕ) → a < length h.cells → IsLive h vm a → IsIn a h.objects
  pub strings_listed : (a : ℕ) → some a ≡ vm.strings → IsIn a h.objects
  pub sound : (a : ℕ) → IsSound (body_at h a)

module _ {D : Type 0} where
  only_stays :
      (h : Heap D) (p : Pointer) (b : ℕ) → black h b ≡ true → black (blacken_only h p) b ≡ true
  only_stays h none b is = is
  only_stays h (some a) b is = elim (dec_lt a (length h.cells)) [
    | yes inside ↦
        ground (arith, object_at-put h a b (record (object_at h a) { is_black = true }) inside)
    | no outside ↦
        rw (set-beyond h.cells a (record (object_at h a) { is_black = true }) (omega arith)) is
  ]

  only_new :
      (h : Heap D) (p : Pointer) (b : ℕ)
      → black (blacken_only h p) b ≡ true
      → (black h b ≡ true) ⊎ (some b ≡ p)
  only_new h none b is = inl is
  only_new h (some a) b is = elim (ℕ_discrete b a) [
    | yes e ↦ inr (ap some e)
    | no ne ↦ inl (
        sym (
          ap (λ (o : Object D). o.is_black)
            (put-elsewhere h a b (record (object_at h a) { is_black = true }) (λ e. ne (sym e))))
        ∙ is)
  ]

  only_body : (h : Heap D) (p : Pointer) (b : ℕ) → body_at (blacken_only h p) b ≡ body_at h b
  only_body h none b = refl
  only_body h (some a) b = elim (dec_lt a (length h.cells)) [
    | yes inside ↦
        ground (arith, object_at-put h a b (record (object_at h a) { is_black = true }) inside)
    | no outside ↦
        rw (set-beyond h.cells a (record (object_at h a) { is_black = true }) (omega arith)) refl
  ]

  only_there :
      (h : Heap D) (p : Pointer) (b : ℕ)
      → b < length h.cells
      → some b ≡ p
      → black (blacken_only h p) b ≡ true
  only_there h none b inside e = cc
  only_there h (some a) b inside e =
      let same : b ≡ a = cc in
      ground (
        arith,
        object_at-put h a b (record (object_at h a) { is_black = true }) (rw (← same) inside),
        same,
      )

  only_length : (h : Heap D) (p : Pointer) → length (blacken_only h p).cells ≡ length h.cells
  only_length h none = refl
  only_length h (some a) = length-set h.cells a (record (object_at h a) { is_black = true })

  only_gray : (h : Heap D) (p : Pointer) → (blacken_only h p).gray_stack ≡ h.gray_stack
  only_gray h none = refl
  only_gray h (some a) = refl

  only_objects : (h : Heap D) (p : Pointer) → (blacken_only h p).objects ≡ h.objects
  only_objects h none = refl
  only_objects h (some a) = refl

module _ {D : Type 0} (h : Heap D) (vm : Machine) (q : IsQuiet h vm)
    (apart : (a : ℕ)
      → IsIn (some a) (vm.init_string ∷ vm.new_string ∷ vm.globals ∷ [])
      → some a ≢ vm.strings) where
  -- What is black before the trace finds it.
  abbrev Old : ℕ → Type 0
  Old a = (length h.cells ≤ a) ⊎ (some a ≡ vm.strings)

  first : Heap D
  first = mark_all h (vm.init_string ∷ vm.new_string ∷ vm.globals ∷ [])

  first-Marks : Marks (vm.init_string ∷ vm.new_string ∷ vm.globals ∷ []) h first
  unfolding first
  first-Marks = mark_all-Marks h (vm.init_string ∷ vm.new_string ∷ vm.globals ∷ [])

  early : (a : ℕ) → IsIn (some a) (vm.init_string ∷ vm.new_string ∷ vm.globals ∷ []) → IsLive h vm a
  early a (inl e) = root (inl e)
  early a (inr (inl e)) = root (inr (inl e))
  early a (inr (inr (inl e))) = root (inr (inr (inl e)))
  early a (inr (inr (inr n))) = elim n [ ]

  -- Nothing is gray before the roots are marked, and only what is outside the heap is black.
  was_outside : (a : ℕ) → black h a ≡ true → length h.cells ≤ a
  was_outside a is = elim (dec_lt a (length h.cells)) [
    | yes inside ↦ absurd (clash is (q.all_white a inside))
    | no outside ↦ omega arith
  ]

  no_targets :
      (a : ℕ) → length h.cells ≤ a → (b : ℕ) → IsIn (some b) (body_targets (body_at h a)) → ⊥
  unfolding body_targets
  no_targets a outside b i =
      let e : body_at h a ≡ native_body =
        ap (λ (o : Object D). o.body) (get_or-beyond h.cells a no_object outside) in
      absurd (rw e at i)

  second-IsTracing :
      IsTracing (body_at h) (root_pointers vm) vm.strings Old (blacken_only first vm.strings)
  second-IsTracing =
      let m = first-Marks in
      record {
        bodies = λ a. only_body first vm.strings a ∙ m.bodies a;
        closed = λ a is. elim (only_new first vm.strings a is) [
          | inr w ↦ inl w
          | inl before ↦ elim (m.new a before) [
            | inr i ↦ inr (inl (rw (only_gray first vm.strings) i))
            | inl at_first ↦ inr (inr (λ b i. absurd (no_targets a (was_outside a at_first) b i)))
          ]
        ];
        gray_live = λ a i. elim (m.pushed a (rw (only_gray first vm.strings) at i)) [
          | inl before ↦ absurd (rw q.no_gray at before)
          | inr (j, white) ↦ (early a j, apart a j)
        ];
        black_live = λ a is. elim (only_new first vm.strings a is) [
          | inr w ↦ inl (inr w)
          | inl before ↦ elim (m.new a before) [
            | inl at_first ↦ inl (inl (was_outside a at_first))
            | inr i ↦ elim (m.pushed a i) [
              | inl even_before ↦ absurd (rw q.no_gray at even_before)
              | inr (j, white) ↦ inr (early a j)
            ]
          ]
        ];
        weak_black =
            λ a w. only_there first vm.strings a (rw m.size (q.inside a (q.strings_listed a w))) w;
      }

  -- The trace from the roots: an object of the heap is black at its end if it is live or the table of strings.
  pub record Traced (h' : Heap D) : Type 0 where
    pub live_black : (a : ℕ) → IsLive h vm a → black h' a ≡ true
    pub strings_black : (a : ℕ) → some a ≡ vm.strings → black h' a ≡ true
    pub black_live :
        (a : ℕ) → a < length h.cells → black h' a ≡ true → IsLive h vm a ⊎ (some a ≡ vm.strings)
    pub bodies : (a : ℕ) → body_at h' a ≡ body_at h a
    pub gray_done : h'.gray_stack ≡ []
    pub size : length h'.cells ≡ length h.cells
    pub objects_same : h'.objects ≡ h.objects

  mark_roots_lem : mark_roots h vm ≡ mark_object (blacken_only first vm.strings) vm.base_thread
  unfolding mark_roots first
  mark_roots_lem = refl

  pub trace_references-Traced :
      (h' : Heap D) × (trace_references (mark_roots h vm) ≡ some h') × Traced h'
  unfolding trace_references
  trace_references-Traced =
      let m = first-Marks in
      let n = mark_object-Marks (blacken_only first vm.strings) vm.base_thread in
      let start = mark_object (blacken_only first vm.strings) vm.base_thread in
      let t =
        marked-IsTracing (body_at h) (root_pointers vm) vm.strings Old
          (blacken_only first vm.strings) start (vm.base_thread ∷ []) second-IsTracing
          (λ b i. root (last b i)) n in
      let (h', run, t', vacant, grows, size, same) =
        trace-IsTracing (body_at h) (root_pointers vm) vm.strings Old
          (length start.cells + length start.gray_stack) start
          (omega (arith, whites-le start.cells)) t in
      let reached = λ (a : ℕ) (i : IsIn (some a) (root_pointers vm)). grows a (marked m n a i) in
      (
        h',
        rw mark_roots_lem run,
        record {
          live_black = λ a live.
              Live-black (body_at h) (root_pointers vm) vm.strings Old h' t' vacant reached q.sound
                live;
          strings_black = t'.weak_black;
          black_live = λ a inside is. elim (t'.black_live a is) [
            | inl (inl outside) ↦ absurd (omega arith)
            | inl (inr w) ↦ inr w
            | inr live ↦ inl live
          ];
          bodies = t'.bodies;
          gray_done = vacant;
          size = size ∙ n.size ∙ only_length first vm.strings ∙ m.size;
          objects_same = same ∙ n.objects_same ∙ only_objects first vm.strings ∙ m.objects_same;
        },
      )
    where
      last : (b : ℕ) → IsIn (some b) (vm.base_thread ∷ []) → IsIn (some b) (root_pointers vm)
      last b (inl e) = inr (inr (inr (inl e)))
      last b (inr none_left) = elim none_left [ ]

      marked :
          Marks (vm.init_string ∷ vm.new_string ∷ vm.globals ∷ []) h first
          → Marks
              (vm.base_thread ∷ [])
              (blacken_only first vm.strings)
              (mark_object (blacken_only first vm.strings) vm.base_thread)
          → (a : ℕ) → IsIn (some a) (root_pointers vm)
          → black (mark_object (blacken_only first vm.strings) vm.base_thread) a ≡ true
      marked m n a (inl e) = n.stays a (only_stays first vm.strings a (m.marked a (inl e)))
      marked m n a (inr (inl e)) =
          n.stays a (only_stays first vm.strings a (m.marked a (inr (inl e))))
      marked m n a (inr (inr (inl e))) =
          n.stays a (only_stays first vm.strings a (m.marked a (inr (inr (inl e)))))
      marked m n a (inr (inr (inr (inl e)))) = n.marked a (inl e)
      marked m n a (inr (inr (inr (inr none_left)))) = elim none_left [ ]
