-- ===== src/Scanner/Slices.antt =====
-- src/scanner.c: scanning ends, and the tokens are slices of the source in order.
use xan.Base.{
  ap, ◌∙◌, ◌∷◌, [], ==_iff, ℕ, zero, suc, ◌-◌, ◌<◌, ◌≡◌, refl, ◌⊎◌, inl, inr, arith, Bool, true,
  false, ◌&&◌, ◌||◌, List, ◌++◌, ◌==◌, if◌then◌else◌, length, length-append, Bool-cases,
  Option-cases, if-cases,
}
use xan.Scanner.Tokens.{
  Token, TokenType, token_error, token_eof, token_slash, token_string, token_number,
}
use xan.Scanner.{
  Scanner, Result, ok, overrun, no_fuel, peek, peek_next, is_at_end, advanced, matches, after_match,
  make_token, error_token, skip_while, is_digit, is_alpha, skip_space, skip_whitespace, string_loop,
  string, number, identifier, punctuation, comparison, in_line, Round, returns, continues, overruns,
  waits, after_comment, slash, dispatch, round, after_round, scan_loop, scan_token,
}
use xan.Scanner.Words.{identifier_type}
use xan.Scanner.Progress.{
  Behind, Behind-refl, Behind-trans, Behind-length, advanced-Behind, after_match-Behind,
  skip_while-Behind, skip_space-Behind, string_loop-Behind, CommentEnds, EndsOddly, both,
  multiline_comment-CommentEnds, advanced-shorter,
}

-- A token that is scanned from `p` up to `q`: an error, or a slice of `p` that ends at `q`.
abbrev pub IsSlice : List ℕ → Token → List ℕ → Type 0
IsSlice p t q =
    Behind q p
    × ((t.type ≡ token_error)
        ⊎ (Behind t.start p
            × ((lexeme : List ℕ) × (t.start ≡ lexeme ++ q) × (t.length ≡ length lexeme))))

-- A block comment begins in `p`, and the last byte of the source behind its opening is a star or a slash.
abbrev pub BreaksOff : List ℕ → Type 0
BreaksOff p = (q : List ℕ) × Behind (b'/' ∷ b'*' ∷ q) p × EndsOddly q

pub BreaksOff-Behind : {p q : List ℕ} → Behind p q → BreaksOff p → BreaksOff q
BreaksOff-Behind b (r, opening, oddly) = (r, Behind-trans opening b, oddly)

-- How a round of the loop of `scanToken` ends that starts at `p`.
abbrev RoundEnds : List ℕ → Round → Type 0
RoundEnds p (returns t s) = IsSlice p t s.current
RoundEnds p (continues s) = Behind s.current p × (length s.current < length p)
RoundEnds p overruns = BreaksOff p
RoundEnds p waits = ⊥

make_token-IsSlice :
    (s : Scanner) (type : TokenType) (p : List ℕ)
    → Behind s.start p
    → Behind s.current s.start
    → IsSlice p (make_token s type) s.current
unfolding make_token
make_token-IsSlice s type p b (lexeme, e) = (
  Behind-trans (lexeme, e) b,
  inr (b, (lexeme, e, rw e (omega (arith, length-append lexeme s.current)))),
)

string-RoundEnds :
    (s : Scanner) (p : List ℕ)
    → Behind s.start p
    → Behind s.current s.start
    → RoundEnds p (returns (string s).0 (string s).1)
unfolding string error_token
string-RoundEnds s p b c =
    let r = string_loop s.current s.line in
    let b' = Behind-trans (string_loop-Behind s.current s.line) c in
    elim (Bool-cases (is_at_end r.0)) [
      | inl ended ↦ rw ended (Behind-trans b' b, inl refl)
      | inr closed ↦ rw closed (
          make_token-IsSlice (record s { current = advanced r.0; line = r.1 }) token_string p b
            (Behind-trans (advanced-Behind r.0) b'))
    ]

number-RoundEnds :
    (s : Scanner) (p : List ℕ)
    → Behind s.start p
    → Behind s.current s.start
    → RoundEnds p (returns (number s).0 (number s).1)
unfolding number
number-RoundEnds s p b c =
    let whole = skip_while is_digit s.current in
    let b' = Behind-trans (skip_while-Behind is_digit s.current) c in
    let rest =
      (if peek whole == b'.' && is_digit (peek_next whole)
        then skip_while is_digit (advanced whole)
        else whole) in
    make_token-IsSlice (record s { current = rest }) token_number p b
      (if-cases (λ q. Behind q s.start) (peek whole == b'.' && is_digit (peek_next whole))
        (λ _. Behind-trans (skip_while-Behind is_digit _) (Behind-trans (advanced-Behind whole) b'))
        (λ _. b'))

identifier-RoundEnds :
    (s : Scanner) (p : List ℕ)
    → Behind s.start p
    → Behind s.current s.start
    → RoundEnds p (returns (identifier s).0 (identifier s).1)
unfolding identifier
identifier-RoundEnds s p b c =
    let rest = skip_while (λ c. is_alpha c || is_digit c) s.current in
    make_token-IsSlice (record s { current = rest })
      (identifier_type s.start (length s.start - length rest)) p b
      (Behind-trans (skip_while-Behind _ s.current) c)

after_comment-RoundEnds :
    (s : Scanner) (p : List ℕ) (r : Result (Bool × List ℕ))
    → Behind s.current p
    → length s.current < length p
    → CommentEnds (advanced s.current) r
    → Behind (b'/' ∷ b'*' ∷ advanced s.current) p
    → RoundEnds p (after_comment s r)
unfolding after_comment error_token
after_comment-RoundEnds s p (ok (true, q)) b less e opens =
    (Behind-trans e (Behind-trans (advanced-Behind s.current) b), inl refl)
after_comment-RoundEnds s p (ok (false, q)) b less e opens =
    let within = Behind-trans e (advanced-Behind s.current) in
    (Behind-trans within b, omega (arith, Behind-length within))
after_comment-RoundEnds s p overrun b less e opens = (advanced s.current, opens, e)
after_comment-RoundEnds s p no_fuel b less e opens = elim e [ ]

-- The byte that has been read, or matched, and the rest.
read_on : (p : List ℕ) → is_at_end p ≡ false → p ≡ peek p ∷ advanced p
read_on [] more = cc
read_on (c ∷ cs) more = refl

matched : (p : List ℕ) (c : ℕ) → matches p c ≡ true → p ≡ c ∷ advanced p
matched [] c h = cc
matched (d ∷ cs) c h = ap (λ x. x ∷ cs) ((==_iff d c).0 (both h).1)

slash-RoundEnds :
    (s : Scanner) (p : List ℕ)
    → Behind s.start p
    → Behind s.current s.start
    → length s.current < length p
    → s.start ≡ b'/' ∷ s.current
    → RoundEnds p (slash s)
unfolding slash
slash-RoundEnds s p b c less first =
    let here = Behind-trans c b in
    if-cases (RoundEnds p) (matches s.current b'/')
      (λ _.
        let rest = Behind-trans (skip_while-Behind in_line _) (advanced-Behind s.current) in
        (Behind-trans rest here, omega (arith, Behind-length rest)))
      (λ _.
        if-cases (RoundEnds p) (matches s.current b'*')
          (λ star.
            after_comment-RoundEnds s p _ here less
              (multiline_comment-CommentEnds (advanced s.current))
              (
                b.0,
                b.1 ∙ ap (λ l. b.0 ++ l) (first ∙ ap (λ l. b'/' ∷ l) (matched s.current b'*' star)),
              ))
          (λ _. make_token-IsSlice s token_slash p b c))

dispatch-RoundEnds :
    (s : Scanner) (c : ℕ) (p : List ℕ)
    → Behind s.start p
    → Behind s.current s.start
    → length s.current < length p
    → s.start ≡ c ∷ s.current
    → RoundEnds p (dispatch s c)
unfolding dispatch error_token
dispatch-RoundEnds s c p b e less first = elim (Option-cases (punctuation c)) [
  | inr (type, one) ↦ rw (one, RoundEnds) (make_token-IsSlice s type p b e)
  | inl other ↦
      rw (other, RoundEnds)
        (elim (Option-cases (comparison c)) [
          | inr ((long, short), two) ↦
              rw (two, RoundEnds)
                (make_token-IsSlice (record s { current = after_match s.current b'=' })
                  (if matches s.current b'=' then long else short) p b
                  (Behind-trans (after_match-Behind s.current b'=') e))
          | inl more ↦
              rw (more, RoundEnds)
                (if-cases (RoundEnds p) (c == b'"') (λ _. string-RoundEnds s p b e)
                  (λ _.
                    if-cases (RoundEnds p) (c == b'/')
                      (λ is.
                        slash-RoundEnds s p b e less
                          (first ∙ ap (λ x. x ∷ s.current) ((==_iff c b'/').0 is)))
                      (λ _. (Behind-trans e b, inl refl))))
        ])
]

round-RoundEnds : (s : Scanner) → RoundEnds s.current (round s)
unfolding round skip_whitespace
round-RoundEnds s =
    let white = skip_space s.current s.line in
    let b = skip_space-Behind s.current s.line in
    let next : Scanner = record { start = white.0; current = advanced white.0; line = white.1 } in
    if-cases (RoundEnds s.current) (is_at_end white.0)
      (λ _.
        make_token-IsSlice (record { start = white.0; current = white.0; line = white.1 }) token_eof
          s.current b (Behind-refl white.0))
      (λ more.
        if-cases (RoundEnds s.current) (is_digit (peek white.0))
          (λ _. number-RoundEnds next s.current b (advanced-Behind white.0))
          (λ _.
            if-cases (RoundEnds s.current) (is_alpha (peek white.0))
              (λ _. identifier-RoundEnds next s.current b (advanced-Behind white.0))
              (λ _.
                dispatch-RoundEnds next (peek white.0) s.current b (advanced-Behind white.0)
                  (omega (arith, advanced-shorter white.0 more, Behind-length b))
                  (read_on white.0 more))))

-- How `scanToken` ends from `p`: it returns an error or a slice, or it reads behind the NUL in a comment.
abbrev pub Scans : List ℕ → Result (Token × Scanner) → Type 0
Scans p (ok (t, s)) = IsSlice p t s.current
Scans p overrun = BreaksOff p
Scans p no_fuel = ⊥

IsSlice-Behind : {p q r : List ℕ} (t : Token) → Behind p q → IsSlice p t r → IsSlice q t r
IsSlice-Behind t b (e, inl error) = (Behind-trans e b, inl error)
IsSlice-Behind t b (e, inr (begin, slice)) = (Behind-trans e b, inr (Behind-trans begin b, slice))

Scans-Behind : {p q : List ℕ} (r : Result (Token × Scanner)) → Behind p q → Scans p r → Scans q r
Scans-Behind (ok (t, s)) b e = IsSlice-Behind t b e
Scans-Behind overrun b e = BreaksOff-Behind b e
Scans-Behind no_fuel b e = elim e [ ]

after_round-Scans :
    (fuel : ℕ) (p : List ℕ) (r : Round)
    → ((s : Scanner) → length s.current < fuel → Scans s.current (scan_loop fuel s))
    → length p < suc fuel
    → RoundEnds p r
    → Scans p (after_round (scan_loop fuel) r)
unfolding after_round
after_round-Scans fuel p (returns t s) enough h e = e
after_round-Scans fuel p (continues s) enough h (b, less) =
    Scans-Behind _ b (enough s (omega arith))
after_round-Scans fuel p overruns enough h e = e
after_round-Scans fuel p waits enough h e = elim e [ ]

scan_loop-Scans :
    (fuel : ℕ) (s : Scanner) → length s.current < fuel → Scans s.current (scan_loop fuel s)
unfolding scan_loop
scan_loop-Scans zero s h = absurd (omega arith)
scan_loop-Scans (suc fuel) s h =
    after_round-Scans fuel s.current (round s) (scan_loop-Scans fuel) h (round-RoundEnds s)

-- `scanToken` ends on every source: it returns a token and does not move back, and the token is an
-- error or the bytes of the source from its start up to the new position. Or it reads behind the NUL: then a
-- block comment opens from here on, and the last byte of the source behind that opening is a star or a slash.
pub scan_token-Scans : (s : Scanner) → Scans s.current (scan_token s)
unfolding scan_token
scan_token-Scans s = scan_loop-Scans _ s (omega arith)
