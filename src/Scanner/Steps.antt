-- ===== src/Scanner/Steps.antt =====
-- src/scanner.c: every token but the last one takes a byte of the source at least.
use xan.Base.{
  ℕ, zero, suc, ◌<◌, ◌≤◌, ◌≡◌, refl, ◌⊎◌, inl, inr, arith, Bool, true, false, ◌&&◌, List, ◌==◌,
  length, Bool-cases, Option-cases, if-cases,
}
use xan.Scanner.Tokens.{Token, token_eof}
use xan.Scanner.{
  Scanner, Result, ok, overrun, no_fuel, peek, peek_next, is_at_end, advanced, matches, make_token,
  skip_while, is_digit, is_alpha, skip_space, skip_whitespace, string_loop, string, number,
  identifier, punctuation, comparison, in_line, Round, returns, continues, overruns, waits,
  after_comment, slash, dispatch, round, after_round, scan_loop, scan_token,
}
use xan.Scanner.Progress.{
  Behind, Behind-refl, Behind-trans, Behind-length, advanced-Behind, after_match-Behind,
  skip_while-Behind, skip_space-Behind, string_loop-Behind, CommentEnds,
  multiline_comment-CommentEnds, advanced-shorter,
}

-- A round ends at `p` or behind it.
abbrev After : List ℕ → Round → Type 0
After p (returns t s) = Behind s.current p
After p (continues s) = Behind s.current p
After p overruns = Unit
After p waits = Unit

string-After : (s : Scanner) → After s.current (returns (string s).0 (string s).1)
unfolding string
string-After s =
    let r = string_loop s.current s.line in
    let b = string_loop-Behind s.current s.line in
    elim (Bool-cases (is_at_end r.0)) [
      | inl ended ↦ rw ended b
      | inr closed ↦ rw closed (Behind-trans (advanced-Behind r.0) b)
    ]

number-After : (s : Scanner) → After s.current (returns (number s).0 (number s).1)
unfolding number
number-After s =
    let whole = skip_while is_digit s.current in
    if-cases (λ q. Behind q s.current) (peek whole == b'.' && is_digit (peek_next whole))
      (λ _.
        Behind-trans (skip_while-Behind is_digit _)
          (Behind-trans (advanced-Behind whole) (skip_while-Behind is_digit s.current)))
      (λ _. skip_while-Behind is_digit s.current)

identifier-After : (s : Scanner) → After s.current (returns (identifier s).0 (identifier s).1)
unfolding identifier
identifier-After s = skip_while-Behind _ s.current

after_comment-After :
    (s : Scanner) (r : Result (Bool × List ℕ))
    → CommentEnds (advanced s.current) r
    → After s.current (after_comment s r)
unfolding after_comment
after_comment-After s (ok (true, q)) e = Behind-trans e (advanced-Behind s.current)
after_comment-After s (ok (false, q)) e = Behind-trans e (advanced-Behind s.current)
after_comment-After s overrun e = tt
after_comment-After s no_fuel e = tt

slash-After : (s : Scanner) → After s.current (slash s)
unfolding slash
slash-After s =
    if-cases (After s.current) (matches s.current b'/')
      (λ _. Behind-trans (skip_while-Behind in_line _) (advanced-Behind s.current))
      (λ _.
        if-cases (After s.current) (matches s.current b'*')
          (λ _. after_comment-After s _ (multiline_comment-CommentEnds (advanced s.current)))
          (λ _. Behind-refl s.current))

dispatch-After : (s : Scanner) (c : ℕ) → After s.current (dispatch s c)
unfolding dispatch
dispatch-After s c = elim (Option-cases (punctuation c)) [
  | inr (type, one) ↦ rw (one, After) (Behind-refl s.current)
  | inl other ↦
      rw (other, After)
        (elim (Option-cases (comparison c)) [
          | inr ((long, short), two) ↦ rw (two, After) (after_match-Behind s.current b'=')
          | inl more ↦
              rw (more, After)
                (if-cases (After s.current) (c == b'"') (λ _. string-After s)
                  (λ _.
                    if-cases (After s.current) (c == b'/') (λ _. slash-After s)
                      (λ _. Behind-refl s.current)))
        ])
]

-- A round that starts at `p` comes to the end, or takes a byte at least.
abbrev Takes : List ℕ → Round → Type 0
Takes p (returns t s) =
    ((t.type ≡ token_eof) × (is_at_end s.current ≡ true)) ⊎ (length s.current < length p)
Takes p (continues s) = length s.current < length p
Takes p overruns = Unit
Takes p waits = Unit

After-Takes : (p q : List ℕ) (r : Round) → length p < length q → After p r → Takes q r
After-Takes p q (returns t s) less b = inr (omega (arith, Behind-length b))
After-Takes p q (continues s) less b = omega (arith, Behind-length b)
After-Takes p q overruns less b = tt
After-Takes p q waits less b = tt

round-Takes : (s : Scanner) → Takes s.current (round s)
unfolding round skip_whitespace make_token
round-Takes s =
    let white = skip_space s.current s.line in
    let b = skip_space-Behind s.current s.line in
    let next : Scanner = record { start = white.0; current = advanced white.0; line = white.1 } in
    if-cases (Takes s.current) (is_at_end white.0) (λ end. inl (refl, end))
      (λ more.
        let less : length (advanced white.0) < length s.current =
          omega (arith, advanced-shorter white.0 more, Behind-length b) in
        if-cases (Takes s.current) (is_digit (peek white.0))
          (λ _.
            After-Takes next.current s.current (returns (number next).0 (number next).1) less
              (number-After next))
          (λ _.
            if-cases (Takes s.current) (is_alpha (peek white.0))
              (λ _.
                After-Takes next.current s.current (returns (identifier next).0 (identifier next).1)
                  less (identifier-After next))
              (λ _.
                After-Takes next.current s.current (dispatch next (peek white.0)) less
                  (dispatch-After next (peek white.0)))))

-- The result of `scanToken` from `p`.
abbrev pub Moves : List ℕ → Result (Token × Scanner) → Type 0
Moves p (ok (t, s)) =
    ((t.type ≡ token_eof) × (is_at_end s.current ≡ true)) ⊎ (length s.current < length p)
Moves p overrun = Unit
Moves p no_fuel = Unit

Moves-longer :
    (p q : List ℕ) (r : Result (Token × Scanner)) → length p ≤ length q → Moves p r → Moves q r
Moves-longer p q (ok (t, s)) le (inl end) = inl end
Moves-longer p q (ok (t, s)) le (inr less) = inr (omega arith)
Moves-longer p q overrun le m = tt
Moves-longer p q no_fuel le m = tt

after_round-Moves :
    (fuel : ℕ) (p : List ℕ) (r : Round)
    → ((s : Scanner) → Moves s.current (scan_loop fuel s))
    → Takes p r
    → Moves p (after_round (scan_loop fuel) r)
unfolding after_round
after_round-Moves fuel p (returns t s) again e = e
after_round-Moves fuel p (continues s) again e = Moves-longer s.current p _ (omega arith) (again s)
after_round-Moves fuel p overruns again e = tt
after_round-Moves fuel p waits again e = tt

scan_loop-Moves : (fuel : ℕ) (s : Scanner) → Moves s.current (scan_loop fuel s)
unfolding scan_loop
scan_loop-Moves zero s = tt
scan_loop-Moves (suc fuel) s =
    after_round-Moves fuel s.current (round s) (scan_loop-Moves fuel) (round-Takes s)

pub scan_token-Moves : (s : Scanner) → Moves s.current (scan_token s)
unfolding scan_token
scan_token-Moves s = scan_loop-Moves _ s
