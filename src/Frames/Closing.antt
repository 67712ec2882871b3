-- ===== src/Frames/Closing.antt =====
-- src/vm.c, `closeUpvalues`: an upvalue keeps its value when its slot goes away.
use native.Mathlib.Decide.{dec_lt, ℕ_discrete}
use xan.Base.{
  ℕ, ◌<◌, ◌≤◌, ◌≡◌, refl, ap, ◌∙◌, inl, inr, arith, true, false, List, [], ◌∷◌, Option, none, leb,
  IsIn, IsFresh, IsDistinct,
}
use xan.Value.{Value}
use xan.Frames.{
  OpenUpvalue, CallStack, value_in, close_from, close_upvalues, find_location, read_upvalue,
}
use xan.Frames.Upvalues.{IsDescending, IsBelow-IsIn, IsBelow-IsDescending}

-- The upvalues of a list.
abbrev pub names : List OpenUpvalue → List ℕ
names [] = []
names (u ∷ us) = u.upvalue ∷ names us

find_location-IsFresh :
    (a : ℕ) (us : List OpenUpvalue) → IsFresh a (names us) → find_location a us ≡ none
find_location-IsFresh a [] fresh = refl
find_location-IsFresh a (u ∷ us) (apart, fresh) =
    ground (arith, find_location-IsFresh a us fresh, apart)

module _ {D : Type 0} (t : CallStack D) where
  -- What an upvalue reads, by the open ones and the closed ones.
  abbrev reads : List OpenUpvalue → List (ℕ × Value D) → ℕ → Option (Value D)
  reads us closed a = read_upvalue (record t { open_upvalues = us; closed = closed }) a

  reads-close :
      (u : OpenUpvalue) (us : List OpenUpvalue) (closed : List (ℕ × Value D)) (a : ℕ)
      → IsFresh u.upvalue (names us)
      → reads us ((u.upvalue, value_in t u.location) ∷ closed) a ≡ reads (u ∷ us) closed a
  unfolding read_upvalue
  reads-close u us closed a fresh = elim (ℕ_discrete a u.upvalue) [
    | yes e ↦
        let away : find_location a us ≡ none = rw e (find_location-IsFresh u.upvalue us fresh) in
        ground (arith, e, away)
    | no ne ↦ ground (arith, ne)
  ]

  close_high :
      (last : ℕ) (u : OpenUpvalue) (us : List OpenUpvalue) (closed : List (ℕ × Value D))
      → last ≤ u.location
      → close_from t last (u ∷ us) closed
        ≡ close_from t last us ((u.upvalue, value_in t u.location) ∷ closed)
  unfolding close_from
  close_high last u us closed high =
      let test : leb last u.location ≡ true = ground arith in rw test refl

  close_low :
      (last : ℕ) (u : OpenUpvalue) (us : List OpenUpvalue) (closed : List (ℕ × Value D))
      → u.location < last
      → close_from t last (u ∷ us) closed ≡ (u ∷ us, closed)
  unfolding close_from
  close_low last u us closed low =
      let test : leb last u.location ≡ false = ground arith in rw test refl

  -- What `closeUpvalues` does to the open upvalues `us` and the closed ones.
  pub record Closes (last : ℕ) (us : List OpenUpvalue) (closed : List (ℕ × Value D))
      (us' : List OpenUpvalue) (closed' : List (ℕ × Value D)) : Type 0 where
    pub order : IsDescending us'
    pub low : (u : OpenUpvalue) → IsIn u us' → IsIn u us × (u.location < last)
    pub kept : (u : OpenUpvalue) → IsIn u us → u.location < last → IsIn u us'
    pub same_reads : (a : ℕ) → reads us' closed' a ≡ reads us closed a

  close_from-Closes :
      (last : ℕ) (us : List OpenUpvalue) (closed : List (ℕ × Value D))
      → IsDescending us
      → IsDistinct (names us)
      → Closes last us closed (close_from t last us closed).0 (close_from t last us closed).1
  close_from-Closes last [] closed b distinct =
      unfold close_from in
      record { order = tt; low = λ u i. elim i [ ]; kept = λ u i at. i; same_reads = λ a. refl }
  close_from-Closes last (u ∷ us) closed b (fresh, distinct) = elim (dec_lt u.location last) [
    | yes lt ↦ rw (close_low last u us closed lt) (record {
      order = b;
      low = λ v i. elim i [
        | inl e ↦ (inl e, rw e lt)
        | inr j ↦ let below = IsBelow-IsIn u.location us v b j in (inr j, omega arith)
      ];
      kept = λ v i at. i;
      same_reads = λ a. refl;
    })
    | no ge ↦
        let at_u = value_in t u.location in
        let c =
          close_from-Closes last us ((u.upvalue, at_u) ∷ closed)
            (IsBelow-IsDescending u.location us b) distinct in
        rw (close_high last u us closed (omega arith)) (record {
          order = c.order;
          low = λ v i. let (j, lt) = c.low v i in (inr j, lt);
          kept = λ v i at. elim i [
            | inl e ↦ absurd (omega (arith, ap (λ (w : OpenUpvalue). w.location) e))
            | inr j ↦ c.kept v j at
          ];
          same_reads = λ a. c.same_reads a ∙ reads-close u us closed a fresh;
        })
  ]

  -- `closeUpvalues` keeps exactly the open upvalues below `last` open, in order, and no upvalue, open or closed,
  -- reads another value afterwards.
  pub close_upvalues-Closes :
      (last : ℕ)
      → IsDescending t.open_upvalues
      → IsDistinct (names t.open_upvalues)
      → Closes last t.open_upvalues t.closed
          (close_upvalues t last).open_upvalues
          (close_upvalues t last).closed
  unfolding close_upvalues
  close_upvalues-Closes last b distinct = close_from-Closes last t.open_upvalues t.closed b distinct
