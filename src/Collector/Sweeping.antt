-- ===== src/Collector/Sweeping.antt =====
-- src/memory.c: `sweep` keeps the black objects of the list and frees the others.
use native.Mathlib.Decide.{dec_lt}
use xan.Base.{
  clash, ℕ, ◌<◌, ◌≡◌, ◌≢◌, refl, sym, ap, ◌∙◌, inl, inr, arith, Bool, true, false, List, [], ◌∷◌,
  if◌then◌else◌, length, length-set, set-beyond, Bool-cases, IsIn, IsFresh, IsDistinct,
  IsFresh-IsIn,
}
use xan.Collector.{Object, Heap, object_at, put_object, sweep_from, sweep}
use xan.Collector.Marking.{black, body_at, object_at-put}

IsFresh-fewer :
    (a : ℕ) (as' xs : List ℕ) → IsFresh a as' → ((b : ℕ) → IsIn b xs → IsIn b as') → IsFresh a xs
IsFresh-fewer a as' [] fresh sub = tt
IsFresh-fewer a as' (x ∷ xs) fresh sub = (
  IsFresh-IsIn a x as' fresh (sub x (inl refl)),
  IsFresh-fewer a as' xs fresh (λ b i. sub b (inr i)),
)

module _ {D : Type 0} where
  -- The heap in which an object is white, behind a collection that the next one is a major one after.
  abbrev pub whitened : Bool → Heap D → ℕ → Heap D
  whitened major h a =
      if major then put_object h a (record (object_at h a) { is_black = false }) else h

  pub put-elsewhere :
      (h : Heap D) (a b : ℕ) (o : Object D) → a ≢ b → object_at (put_object h a o) b ≡ object_at h b
  put-elsewhere h a b o apart = elim (dec_lt a (length h.cells)) [
    | yes inside ↦ ground (arith, object_at-put h a b o inside)
    | no outside ↦ rw (set-beyond h.cells a o (omega arith)) refl
  ]

  pub put-body :
      (h : Heap D) (a b : ℕ) (o : Object D)
      → o.body ≡ body_at h a
      → body_at (put_object h a o) b ≡ body_at h b
  put-body h a b o same = elim (dec_lt a (length h.cells)) [
    | yes inside ↦ ground (arith, object_at-put h a b o inside)
    | no outside ↦ rw (set-beyond h.cells a o (omega arith)) refl
  ]

  whitened-elsewhere :
      (major : Bool) (h : Heap D) (a b : ℕ)
      → a ≢ b
      → object_at (whitened major h a) b ≡ object_at h b
  whitened-elsewhere true h a b apart =
      put-elsewhere h a b (record (object_at h a) { is_black = false }) apart
  whitened-elsewhere false h a b apart = refl

  whitened-body :
      (major : Bool) (h : Heap D) (a b : ℕ) → body_at (whitened major h a) b ≡ body_at h b
  whitened-body true h a b = put-body h a b (record (object_at h a) { is_black = false }) refl
  whitened-body false h a b = refl

  whitened-length :
      (major : Bool) (h : Heap D) (a : ℕ) → length (whitened major h a).cells ≡ length h.cells
  whitened-length true h a = length-set h.cells a (record (object_at h a) { is_black = false })
  whitened-length false h a = refl

  whitened-gray :
      (major : Bool) (h : Heap D) (a : ℕ) → (whitened major h a).gray_stack ≡ h.gray_stack
  whitened-gray true h a = refl
  whitened-gray false h a = refl

  whitened-here : (h : Heap D) (a : ℕ) → a < length h.cells → black (whitened true h a) a ≡ false
  whitened-here h a inside =
      ground (arith, object_at-put h a a (record (object_at h a) { is_black = false }) inside)

  -- What a sweep over the objects `as'` does.
  pub record Sweeps (major : Bool) (as' : List ℕ) (h h' : Heap D) (freed : List ℕ) : Type 0 where
    pub kept : (b : ℕ) → IsIn b h'.objects → IsIn b as' × (black h b ≡ true)
    pub keeps : (b : ℕ) → IsIn b as' → black h b ≡ true → IsIn b h'.objects
    pub frees : (b : ℕ) → IsIn b as' → black h b ≡ false → IsIn b freed
    pub freed_white : (b : ℕ) → IsIn b freed → IsIn b as' × (black h b ≡ false)
    pub distinct : IsDistinct h'.objects
    pub bodies : (b : ℕ) → body_at h' b ≡ body_at h b
    pub elsewhere : (b : ℕ) → (IsIn b as' → ⊥) → black h' b ≡ black h b
    pub colours : (b : ℕ) → IsIn b as' → b < length h.cells → major ≡ true → black h' b ≡ false
    pub minor : major ≡ false → (b : ℕ) → black h' b ≡ black h b
    pub gray_same : h'.gray_stack ≡ h.gray_stack
    pub size : length h'.cells ≡ length h.cells

  keep-Sweeps :
      (major : Bool) (a : ℕ) (as' : List ℕ) (h h' : Heap D) (freed : List ℕ)
      → IsFresh a as'
      → black h a ≡ true
      → Sweeps major as' (whitened major h a) h' freed
      → Sweeps major (a ∷ as') h (record h' { objects = a ∷ h'.objects }) freed
  keep-Sweeps major a as' h h' freed fresh is s =
      let same = λ (b : ℕ) (i : IsIn b as').
        ap (λ (o : Object D). o.is_black)
          (whitened-elsewhere major h a b (IsFresh-IsIn a b as' fresh i)) in
      record {
        kept = λ b i. elim i [
          | inl e ↦ (inl e, rw e is)
          | inr j ↦ let (k, at) = s.kept b j in (inr k, sym (same b k) ∙ at)
        ];
        keeps = λ b i at. elim i [ inl e ↦ inl e | inr j ↦ inr (s.keeps b j (same b j ∙ at)) ];
        frees = λ b i at. elim i [
          | inl e ↦ absurd (clash is (rw e at at))
          | inr j ↦ s.frees b j (same b j ∙ at)
        ];
        freed_white = λ b i. let (k, at) = s.freed_white b i in (inr k, sym (same b k) ∙ at);
        distinct = (IsFresh-fewer a as' h'.objects fresh (λ b i. (s.kept b i).0), s.distinct);
        bodies = λ b. s.bodies b ∙ whitened-body major h a b;
        elsewhere = λ b out.
            s.elsewhere b (λ i. out (inr i))
            ∙ ap (λ (o : Object D). o.is_black)
                (whitened-elsewhere major h a b (λ e. out (inl (sym e))));
        colours = λ b i inside m. elim i [
          | inl e ↦
              s.elsewhere b (λ j. IsFresh-IsIn a b as' fresh j (sym e))
              ∙ rw (e, m) (whitened-here h a (rw (← e) inside))
          | inr j ↦ s.colours b j (rw (whitened-length major h a) inside) m
        ];
        minor = λ m b. s.minor m b ∙ rw m refl;
        gray_same = s.gray_same ∙ whitened-gray major h a;
        size = s.size ∙ whitened-length major h a;
      }

  drop-Sweeps :
      (major : Bool) (a : ℕ) (as' : List ℕ) (h h' : Heap D) (freed : List ℕ)
      → black h a ≡ false
      → Sweeps major as' h h' freed
      → IsFresh a as'
      → Sweeps major (a ∷ as') h h' (a ∷ freed)
  drop-Sweeps major a as' h h' freed white s fresh = record {
    kept = λ b i. let (k, at) = s.kept b i in (inr k, at);
    keeps = λ b i at. elim i [ inl e ↦ absurd (clash (rw e at at) white) | inr j ↦ s.keeps b j at ];
    frees = λ b i at. elim i [ inl e ↦ inl e | inr j ↦ inr (s.frees b j at) ];
    freed_white = λ b i. elim i [
      | inl e ↦ (inl e, rw e white)
      | inr j ↦ let (k, at) = s.freed_white b j in (inr k, at)
    ];
    distinct = s.distinct;
    bodies = s.bodies;
    elsewhere = λ b out. s.elsewhere b (λ i. out (inr i));
    colours = λ b i inside m. elim i [
      | inl e ↦ s.elsewhere b (λ j. IsFresh-IsIn a b as' fresh j (sym e)) ∙ rw e white
      | inr j ↦ s.colours b j inside m
    ];
    minor = s.minor;
    gray_same = s.gray_same;
    size = s.size;
  }

  sweep_from-Sweeps :
      (major : Bool) (as' : List ℕ) (h : Heap D)
      → IsDistinct as'
      → Sweeps major as' h (sweep_from major as' h).0 (sweep_from major as' h).1
  unfolding sweep_from
  sweep_from-Sweeps major [] h distinct = record {
    kept = λ b i. elim i [ ];
    keeps = λ b i at. i;
    frees = λ b i at. i;
    freed_white = λ b i. elim i [ ];
    distinct = tt;
    bodies = λ b. refl;
    elsewhere = λ b out. refl;
    colours = λ b i inside m. elim i [ ];
    minor = λ m b. refl;
    gray_same = refl;
    size = refl;
  }
  sweep_from-Sweeps major (a ∷ as') h (fresh, distinct) = elim (Bool-cases (black h a)) [
    | inl is ↦ rw is (
        keep-Sweeps major a as' h _ _ fresh is
          (sweep_from-Sweeps major as' (whitened major h a) distinct))
    | inr white ↦
        rw white
          (drop-Sweeps major a as' h _ _ white (sweep_from-Sweeps major as' h distinct) fresh)
  ]

  -- `sweep` keeps exactly the black objects of the list and frees exactly the white ones.
  -- Before a major collection the kept objects turn white, otherwise no colour changes.
  pub sweep-Sweeps :
      (major : Bool) (h : Heap D)
      → IsDistinct h.objects
      → Sweeps major h.objects h (sweep major h).0 (sweep major h).1
  unfolding sweep
  sweep-Sweeps major h distinct = sweep_from-Sweeps major h.objects h distinct
