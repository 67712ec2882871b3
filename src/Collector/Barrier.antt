-- ===== src/Collector/Barrier.antt =====
-- src/memory.h, `writeBarrier`: a black object that is written to is traced again.
use native.Mathlib.Decide.{ℕ_discrete}
use xan.Base.{
  clash, ℕ, ◌<◌, ◌≡◌, ◌≢◌, refl, sym, ap, ◌∙◌, ◌⊎◌, inl, inr, arith, Bool, true, false, ◌∷◌, some,
  if◌then◌else◌, length, length-set, Bool-cases, IsIn, ◌==◌,
}
use xan.Collector.{Pointer, Body, Object, Heap, object_at, put_object, body_targets, write_barrier}
use xan.Collector.Marking.{black, body_at, object_at-put}
use xan.Collector.Sweeping.{put-elsewhere}

module _ {D : Type 0} where
  abbrev pub grey : Heap D → ℕ → Bool
  grey h a = (object_at h a).is_grey

  -- A heap between two collections of which the next is not a major one.
  pub record IsGuarded (h : Heap D) (weak : Pointer) : Type 0 where
    pub closed :
        (a : ℕ)
        → black h a ≡ true
        → (some a ≡ weak)
          ⊎ (IsIn a h.gray_stack
              ⊎ ((b : ℕ) → IsIn (some b) (body_targets (body_at h a)) → black h b ≡ true))
    pub flagged :
        (a : ℕ)
        → a < length h.cells
        → black h a ≡ true
        → grey h a ≡ true
        → (some a ≡ weak) ⊎ IsIn a h.gray_stack
    pub gray_strong : (a : ℕ) → IsIn a h.gray_stack → some a ≢ weak
    pub weak_grey : (a : ℕ) → some a ≡ weak → grey h a ≡ true

  -- The object `a` with another body.
  abbrev pub with_body : Heap D → ℕ → Body D → Heap D
  with_body h a body = put_object h a (record (object_at h a) { body = body })

  module _ (h : Heap D) (weak : Pointer) (g : IsGuarded h weak) (a : ℕ)
      (inside : a < length h.cells) (body : Body D) where
    changed :
        (b : ℕ)
        → object_at (with_body h a body) b
          ≡ (if b == a then record (object_at h a) { body = body } else object_at h b)
    changed b = object_at-put h a b (record (object_at h a) { body = body }) inside

    same_black : (b : ℕ) → black (with_body h a body) b ≡ black h b
    same_black b = ground (arith, changed b)

    same_grey : (b : ℕ) → grey (with_body h a body) b ≡ grey h b
    same_grey b = ground (arith, changed b)

    same_body : (b : ℕ) → b ≢ a → body_at (with_body h a body) b ≡ body_at h b
    same_body b ne = ground (arith, changed b, ne)

    -- A write to an object that needs no second trace: it is white, on the gray stack or the weak table.
    quiet_write :
        ((black h a ≡ true) → (some a ≡ weak) ⊎ IsIn a h.gray_stack)
        → IsGuarded (with_body h a body) weak
    quiet_write safe = record {
      closed = λ b is. elim (ℕ_discrete b a) [
        | yes e ↦ elim (safe (rw e at (sym (same_black b) ∙ is))) [
          | inl w ↦ inl (ap some e ∙ w)
          | inr i ↦ inr (inl (rw e i))
        ]
        | no ne ↦ elim (g.closed b (sym (same_black b) ∙ is)) [
          | inl w ↦ inl w
          | inr (inl i) ↦ inr (inl i)
          | inr (inr done) ↦ inr (inr (λ c i. same_black c ∙ done c (rw (same_body b ne) at i)))
        ]
      ];
      flagged = λ b there is at.
          g.flagged b (rw (length-set h.cells a (record (object_at h a) { body = body })) at there)
            (sym (same_black b) ∙ is) (sym (same_grey b) ∙ at);
      gray_strong = g.gray_strong;
      weak_grey = λ b w. same_grey b ∙ g.weak_grey b w;
    }

  push-IsGuarded :
      (h : Heap D) (weak : Pointer) (a : ℕ)
      → IsGuarded h weak
      → some a ≢ weak
      → IsGuarded (record h { gray_stack = a ∷ h.gray_stack }) weak
  push-IsGuarded h weak a g strong = record {
    closed = λ b is. elim (g.closed b is) [
      | inl w ↦ inl w
      | inr (inl i) ↦ inr (inl (inr i))
      | inr (inr done) ↦ inr (inr done)
    ];
    flagged =
        λ b there is at. elim (g.flagged b there is at) [ inl w ↦ inl w | inr i ↦ inr (inr i) ];
    gray_strong = λ b i. elim i [ inl e ↦ rw e strong | inr j ↦ g.gray_strong b j ];
    weak_grey = g.weak_grey;
  }

  grey-IsGuarded :
      (h : Heap D) (weak : Pointer) (a : ℕ)
      → IsGuarded h weak
      → a < length h.cells
      → ((black h a ≡ true) → (some a ≡ weak) ⊎ IsIn a h.gray_stack)
      → IsGuarded (put_object h a (record (object_at h a) { is_grey = true })) weak
  grey-IsGuarded h weak a g inside safe =
      let o : Object D = record (object_at h a) { is_grey = true } in
      let here = λ (b : ℕ). object_at-put h a b o inside in
      let same_black : (b : ℕ) → black (put_object h a o) b ≡ black h b =
        λ b. ground (arith, here b) in
      let same_body : (b : ℕ) → body_at (put_object h a o) b ≡ body_at h b =
        λ b. ground (arith, here b) in
      record {
        closed = λ b is. elim (g.closed b (sym (same_black b) ∙ is)) [
          | inl w ↦ inl w
          | inr (inl i) ↦ inr (inl i)
          | inr (inr done) ↦ inr (inr (λ c i. same_black c ∙ done c (rw (same_body b) at i)))
        ];
        flagged = λ b there is at. elim (ℕ_discrete b a) [
          | yes e ↦ elim (safe (rw e at (sym (same_black b) ∙ is))) [
            | inl w ↦ inl (ap some e ∙ w)
            | inr i ↦ inr (rw e i)
          ]
          | no ne ↦ g.flagged b (rw (length-set h.cells a o) at there) (sym (same_black b) ∙ is) (
              ap (λ (x : Object D). x.is_grey) (sym (put-elsewhere h a b o (λ e. ne (sym e)))) ∙ at)
        ];
        gray_strong = g.gray_strong;
        weak_grey = λ b w. ground (arith, here b, g.weak_grey b w);
      }

  abbrev regreyed : Heap D → ℕ → Heap D
  regreyed h a = put_object h a (record (object_at h a) { is_grey = true })

  write_barrier-grey : (h : Heap D) (a : ℕ) → grey h a ≡ true → write_barrier h a ≡ h
  unfolding write_barrier
  write_barrier-grey h a at = rw at refl

  write_barrier_white :
      (h : Heap D) (a : ℕ) → grey h a ≡ false → black h a ≡ false → write_barrier h a ≡ regreyed h a
  unfolding write_barrier
  write_barrier_white h a off white = rw (off, white) refl

  write_barrier-black :
      (h : Heap D) (a : ℕ)
      → grey h a ≡ false
      → black h a ≡ true
      → write_barrier h a ≡ record (regreyed h a) { gray_stack = a ∷ h.gray_stack }
  unfolding write_barrier
  write_barrier-black h a off is = rw (off, is) refl

  -- Writing to an object and then calling `writeBarrier` on it: every black object but the weak table is still on
  -- the gray stack, or what it points to is black.
  pub write_barrier-IsGuarded :
      (h : Heap D) (weak : Pointer) (a : ℕ) (body : Body D)
      → IsGuarded h weak
      → a < length h.cells
      → IsGuarded (write_barrier (with_body h a body) a) weak
  write_barrier-IsGuarded h weak a body g inside =
      let h2 = with_body h a body in
      let inside2 : a < length h2.cells =
        rw (length-set h.cells a (record (object_at h a) { body = body })) inside in
      elim (Bool-cases (grey h2 a)) [
        | inl at ↦ rw (write_barrier-grey h2 a at) (
            quiet_write h weak g a inside body
              (λ is. g.flagged a inside is (sym (same_grey h weak g a inside body a) ∙ at)))
        | inr off ↦ elim (Bool-cases (black h2 a)) [
          | inl is ↦
              let strong : some a ≢ weak =
                λ w. clash (g.weak_grey a w) (sym (same_grey h weak g a inside body a) ∙ off) in
              rw (write_barrier-black h2 a off is) (
                grey-IsGuarded _ weak a
                  (quiet_write _ weak (push-IsGuarded h weak a g strong) a inside body
                    (λ at. inr (inl refl)))
                  inside2 (λ at. inr (inl refl)))
          | inr white ↦
              let unseen : black h a ≡ true → (some a ≡ weak) ⊎ IsIn a h.gray_stack =
                λ is. absurd (clash is (sym (same_black h weak g a inside body a) ∙ white)) in
              rw (write_barrier_white h2 a off white) (
                grey-IsGuarded h2 weak a (quiet_write h weak g a inside body unseen) inside2
                  (λ is. absurd (clash is white)))
        ]
      ]
