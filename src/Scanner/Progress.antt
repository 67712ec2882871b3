-- ===== src/Scanner/Progress.antt =====
-- src/scanner.c: the loops of the scanner end, and the tokens are slices of the source in order.
use mathlib.Core.List.{append_assoc}
use mathlib.Core.Bool.{false≢true}
use xan.Base.{
  ℕ, zero, suc, ◌+◌, ◌<◌, ◌≤◌, ◌≡◌, refl, sym, ap, ◌∙◌, inl, inr, ◌⊎◌, ==_iff, arith, Bool, true,
  false, ◌&&◌, ◌||◌, List, [], ◌∷◌, ◌++◌, ◌==◌, if◌then◌else◌, length, length-append, Bool-cases,
  if-cases,
}
use xan.Scanner.{
  Result, ok, overrun, no_fuel, is_at_end, advanced, matches, after_match, skip_while, is_space,
  comment_loop, multiline_comment, skip_space, string_loop,
}

-- The pointer `p` stands in the string at `q`, at `q` or behind it.
abbrev pub Behind : List ℕ → List ℕ → Type 0
Behind p q = (pre : List ℕ) × (q ≡ pre ++ p)

pub Behind-refl : (p : List ℕ) → Behind p p
Behind-refl p = ([], refl)

pub Behind-trans : {p q r : List ℕ} → Behind p q → Behind q r → Behind p r
Behind-trans {p} (a, e) (b, f) = (b ++ a, f ∙ rw (e, append_assoc))

Behind-cons : (c : ℕ) {p q : List ℕ} → Behind p q → Behind p (c ∷ q)
Behind-cons c (a, e) = (c ∷ a, ap (λ l. c ∷ l) e)

pub Behind-length : {p q : List ℕ} → Behind p q → length p ≤ length q
Behind-length {p} (a, e) = rw e (omega (arith, length-append a p))

pub advanced-Behind : (p : List ℕ) → Behind (advanced p) p
advanced-Behind [] = ([], refl)
advanced-Behind (c ∷ cs) = (c ∷ [], refl)

pub after_match-Behind : (p : List ℕ) (c : ℕ) → Behind (after_match p c) p
after_match-Behind p c = elim (Bool-cases (matches p c)) [
  | inl yes_it ↦ rw yes_it (advanced-Behind p)
  | inr not_it ↦ rw not_it (Behind-refl p)
]

pub skip_while-Behind : (t : ℕ → Bool) (p : List ℕ) → Behind (skip_while t p) p
unfolding skip_while
skip_while-Behind t [] = Behind-refl []
skip_while-Behind t (c ∷ cs) = elim (Bool-cases (t c)) [
  | inl go ↦ rw go (Behind-cons c (skip_while-Behind t cs))
  | inr stop ↦ rw stop (Behind-refl (c ∷ cs))
]

pub skip_space-Behind : (p : List ℕ) (line : ℕ) → Behind (skip_space p line).0 p
unfolding skip_space
skip_space-Behind [] line = Behind-refl []
skip_space-Behind (c ∷ cs) line = elim (Bool-cases (is_space c)) [
  | inl go ↦ rw go (Behind-cons c (skip_space-Behind cs (if c == b'\n' then line + 1 else line)))
  | inr stop ↦ rw stop (Behind-refl (c ∷ cs))
]

pub string_loop-Behind : (p : List ℕ) (line : ℕ) → Behind (string_loop p line).0 p
unfolding string_loop
string_loop-Behind [] line = Behind-refl []
string_loop-Behind (c ∷ cs) line = elim (Bool-cases (c == b'"' || c == 0)) [
  | inl stop ↦ rw stop (Behind-refl (c ∷ cs))
  | inr go ↦ rw go (Behind-cons c (string_loop-Behind cs (if c == b'\n' then line + 1 else line)))
]

-- The last byte of the source is a star or a slash.
abbrev pub EndsOddly : List ℕ → Type 0
EndsOddly p = (c : ℕ) × ((c ≡ b'*') ⊎ (c ≡ b'/')) × Behind (c ∷ []) p

EndsOddly-Behind : {p q : List ℕ} → Behind p q → EndsOddly p → EndsOddly q
EndsOddly-Behind b (c, which, e) = (c, which, Behind-trans e b)

-- How the loop of `multilineComment` can end.
abbrev pub CommentEnds : List ℕ → Result (Bool × List ℕ) → Type 0
CommentEnds p (ok r) = Behind r.1 p
CommentEnds p overrun = EndsOddly p
CommentEnds p no_fuel = ⊥

CommentEnds-Behind :
    {p q : List ℕ} (r : Result (Bool × List ℕ)) → Behind p q → CommentEnds p r → CommentEnds q r
CommentEnds-Behind (ok r) b e = Behind-trans e b
CommentEnds-Behind overrun b e = EndsOddly-Behind b e
CommentEnds-Behind no_fuel b e = elim e [ ]

pub both : {a b : Bool} → a && b ≡ true → (a ≡ true) × (b ≡ true)
both {a = true} {b = true} h = (refl, refl)
both {a = true} {b = false} h = absurd (false≢true h)
both {a = false} h = absurd (false≢true h)

pub advanced-shorter : (p : List ℕ) → is_at_end p ≡ false → length (advanced p) < length p
advanced-shorter [] h = absurd (false≢true (sym h))
advanced-shorter (c ∷ cs) h = omega arith

pub matches-shorter :
    (p : List ℕ) (c : ℕ) → matches p c ≡ true → length (after_match p c) < length p
matches-shorter [] c h = absurd (false≢true h)
matches-shorter (d ∷ cs) c h = rw h (omega arith)

after_match-≤ : (p : List ℕ) (c : ℕ) → length (after_match p c) ≤ length p
after_match-≤ p c = Behind-length (after_match-Behind p c)

after_match-Behind-after_match : (p : List ℕ) (c d : ℕ) → Behind (after_match (after_match p c) d) p
after_match-Behind-after_match p c d =
    Behind-trans (after_match-Behind _ d) (after_match-Behind p c)

-- `fuel` is enough for the loop behind a pointer that is shorter than `fuel`.
abbrev Enough : ℕ → Type 0
Enough fuel =
    (nesting : ℕ) (p : List ℕ) → length p < fuel → CommentEnds p (comment_loop fuel nesting p)

step-Enough :
    (fuel nesting : ℕ) (p q : List ℕ)
    → Enough fuel
    → length p < suc fuel
    → Behind q p
    → length q < length p
    → CommentEnds p (comment_loop fuel nesting q)
step-Enough fuel nesting p q enough h b less =
    CommentEnds-Behind _ b (enough nesting q (omega arith))

matches-cons :
    (c d : ℕ) (cs : List ℕ) → matches (d ∷ cs) c ≡ true → (d ≡ c) × (after_match (d ∷ cs) c ≡ cs)
matches-cons c d cs h = ((==_iff d c).0 ((both h).1), rw h refl)

unmatched : (p : List ℕ) (c : ℕ) → matches p c ≡ false → after_match p c ≡ p
unmatched p c h = rw h refl

-- Nothing is left behind a star or a slash that does not close a comment.
oddly :
    (p : List ℕ)
    → is_at_end p ≡ false
    → matches p b'*' && matches (after_match p b'*') b'/' ≡ false
    → after_match (after_match p b'*') b'/' ≡ []
    → EndsOddly p
oddly [] more not_closed nothing = absurd (false≢true (sym more))
oddly (d ∷ cs) more not_closed nothing = elim (Bool-cases (matches (d ∷ cs) b'*')) [
  | inl star ↦
      let (is, rest) = matches-cons b'*' d cs star in
      let other : matches cs b'/' ≡ false = rw star at not_closed in
      let empty : cs ≡ [] = sym (unmatched cs b'/' other) ∙ rw star at nothing in
      (d, inl is, ([], ap (λ l. d ∷ l) empty))
  | inr plain ↦
      let same = unmatched (d ∷ cs) b'*' plain in
      elim (Bool-cases (matches (d ∷ cs) b'/')) [
        | inl slash ↦
            let (is, rest) = matches-cons b'/' d cs slash in
            let empty : cs ≡ [] = sym rest ∙ rw plain at nothing in
            (d, inr is, ([], ap (λ l. d ∷ l) empty))
        | inr other ↦ absurd (cons_nil (sym (unmatched (d ∷ cs) b'/' other) ∙ rw plain at nothing))
      ]
]
  where
    cons_nil : {x : ℕ} {xs : List ℕ} → x ∷ xs ≡ [] → ⊥
    cons_nil e = cc

slash-Enough :
    (fuel nesting : ℕ) (p s : List ℕ)
    → Enough fuel
    → length p < suc fuel
    → Behind s p
    → (s ≡ [] → EndsOddly p)
    → CommentEnds p (
        let step = comment_loop fuel nesting (advanced s) in elim s [ [] ↦ overrun | _ ∷ _ ↦ step ])
slash-Enough fuel nesting p [] enough h b oddly = oddly refl
slash-Enough fuel nesting p (c ∷ cs) enough h b oddly =
    step-Enough fuel nesting p _ enough h (Behind-trans (c ∷ [], refl) b)
      (omega (arith, Behind-length b))

comment_loop-Enough : (fuel : ℕ) → Enough fuel
unfolding comment_loop
comment_loop-Enough zero nesting p h = absurd (omega arith)
comment_loop-Enough (suc fuel) zero p h = Behind-refl p
comment_loop-Enough (suc fuel) (suc nesting) p h =
    let star = after_match p b'*' in
    let slash = after_match star b'/' in
    let enough = comment_loop-Enough fuel in
    if-cases (CommentEnds p) (is_at_end p) (λ here. Behind-refl p)
      (λ more.
        if-cases (CommentEnds p) (matches p b'*' && matches star b'/')
          (λ closed.
            step-Enough fuel nesting p slash enough h (after_match-Behind-after_match p b'*' b'/')
              (omega (arith, matches-shorter star b'/' (both closed).1, after_match-≤ p b'*')))
          (λ not_closed.
            if-cases (CommentEnds p) (matches star b'/' && matches slash b'*')
              (λ opened.
                step-Enough fuel (suc (suc nesting)) p (after_match slash b'*') enough h
                  (Behind-trans (after_match-Behind slash b'*')
                    (after_match-Behind-after_match p b'*' b'/'))
                  (omega (
                    arith,
                    matches-shorter star b'/' (both opened).0,
                    after_match-≤ p b'*',
                    after_match-≤ slash b'*',
                  )))
              (λ not_opened.
                slash-Enough fuel (suc nesting) p slash enough h
                  (after_match-Behind-after_match p b'*' b'/') (oddly p more not_closed))))

pub multiline_comment-CommentEnds : (p : List ℕ) → CommentEnds p (multiline_comment p)
unfolding multiline_comment
multiline_comment-CommentEnds p = comment_loop-Enough _ 1 p (omega arith)
