-- ===== src/Scanner/Advance.antt =====
-- src/parse.c, `advance`: the next token that is no error, and the tokens up to the end of the source.
use xan.Base.{
  ℕ, zero, suc, ◌+◌, ◌<◌, ◌≡◌, refl, ◌⊎◌, inl, inr, arith, Bool, true, false, List, if◌then◌else◌,
  length, Bool-cases,
}
use xan.Scanner.Tokens.{Token, TokenType, token_error, token_eof}
use xan.Scanner.{Scanner, Result, ok, overrun, no_fuel, is_at_end, scan_token}
use xan.Scanner.Progress.{Behind, Behind-length}
use xan.Scanner.Slices.{Scans, scan_token-Scans, BreaksOff, BreaksOff-Behind}
use xan.Scanner.Steps.{Moves, scan_token-Moves}

abbrev pub is_error : TokenType → Bool
is_error token_error = true
is_error _ = false

-- Whether `errorAtCurrent` has been called.
abbrev pub reported : Result (Bool × Token × Scanner) → Result (Bool × Token × Scanner)
reported (ok (b, t, s)) = ok (true, t, s)
reported overrun = overrun
reported no_fuel = no_fuel

abbrev pub after_token :
    (Scanner → Result (Bool × Token × Scanner))
    → Result (Token × Scanner)
    → Result (Bool × Token × Scanner)
after_token again (ok (t, s)) = if is_error t.type then reported (again s) else ok (false, t, s)
after_token again overrun = overrun
after_token again no_fuel = no_fuel

-- The loop of `advance`: `p->current` and the scanner behind it.
unfoldable pub advance : ℕ → Scanner → Result (Bool × Token × Scanner)
advance zero s = no_fuel
advance (suc fuel) s = after_token (advance fuel) (scan_token s)

-- The result of `advance` from `p`.
abbrev pub Advances : List ℕ → Result (Bool × Token × Scanner) → Type 0
Advances p (ok (b, t, s)) =
    (is_error t.type ≡ false)
    × (((t.type ≡ token_eof) × (is_at_end s.current ≡ true)) ⊎ (length s.current < length p))
Advances p overrun = BreaksOff p
Advances p no_fuel = ⊥

reported-Advances :
    (p q : List ℕ) (r : Result (Bool × Token × Scanner))
    → Behind p q
    → Advances p r
    → Advances q (reported r)
reported-Advances p q (ok (b, t, s)) le (no_error, inl end) = (no_error, inl end)
reported-Advances p q (ok (b, t, s)) le (no_error, inr less) =
    (no_error, inr (omega (arith, Behind-length le)))
reported-Advances p q overrun le a = BreaksOff-Behind le a
reported-Advances p q no_fuel le a = elim a [ ]

after_token-Advances :
    (fuel : ℕ) (p : List ℕ) (r : Result (Token × Scanner))
    → ((s : Scanner) → length s.current < fuel → Advances s.current (advance fuel s))
    → length p < suc fuel
    → Moves p r
    → Scans p r
    → Advances p (after_token (advance fuel) r)
after_token-Advances fuel p (ok (t, s)) again enough moves scans =
    elim (Bool-cases (is_error t.type)) [
      | inr fine ↦ rw fine (fine, moves)
      | inl bad ↦ rw bad (elim moves [
        | inl end ↦ absurd (no_error bad end.0)
        | inr less ↦ reported-Advances s.current p (advance fuel s) scans.0 (again s (omega arith))
      ])
    ]
  where
    no_error : is_error t.type ≡ true → t.type ≡ token_eof → ⊥
    no_error bad end = clash (rw end at bad)
      where
        clash : false ≡ true → ⊥
        clash p = cc
after_token-Advances fuel p overrun again enough moves scans = scans
after_token-Advances fuel p no_fuel again enough moves scans = elim scans [ ]

-- `advance` ends, with a round for each byte of the source and one more: it delivers a token that is no
-- error, and that is the end of the source or has taken a byte at least; or it reads behind the NUL in a comment.
pub advance-Advances :
    (fuel : ℕ) (s : Scanner) → length s.current < fuel → Advances s.current (advance fuel s)
unfolding advance
advance-Advances zero s enough = absurd (omega arith)
advance-Advances (suc fuel) s enough =
    after_token-Advances fuel s.current (scan_token s) (advance-Advances fuel) enough
      (scan_token-Moves s) (scan_token-Scans s)

-- The tokens up to the end of the source, as the loop of `compile` takes them one after another.
pub data ComesToEnd : Scanner → Type 0 where
  overruns_first :
      (s : Scanner)
      → advance (length s.current + 1) s ≡ overrun
      → BreaksOff s.current
      → ComesToEnd s
  at_end :
      (s s' : Scanner) (b : Bool) (t : Token)
      → advance (length s.current + 1) s ≡ ok (b, t, s')
      → t.type ≡ token_eof
      → is_at_end s'.current ≡ true
      → ComesToEnd s
  one_more :
      (s s' : Scanner) (b : Bool) (t : Token)
      → advance (length s.current + 1) s ≡ ok (b, t, s')
      → is_error t.type ≡ false
      → ComesToEnd s'
      → ComesToEnd s

one_step :
    (s : Scanner) (r : Result (Bool × Token × Scanner))
    → ((s' : Scanner) → length s'.current < length s.current → ComesToEnd s')
    → advance (length s.current + 1) s ≡ r
    → Advances s.current r
    → ComesToEnd s
one_step s (ok (b, t, s')) later run (no_error, inl (end, nothing)) =
    at_end s s' b t run end nothing
one_step s (ok (b, t, s')) later run (no_error, inr less) =
    one_more s s' b t run no_error (later s' less)
one_step s overrun later run a = overruns_first s run a
one_step s no_fuel later run a = elim a [ ]

comes_to_end : (n : ℕ) (s : Scanner) → length s.current < n → ComesToEnd s
comes_to_end zero s enough = absurd (omega arith)
comes_to_end (suc n) s enough =
    one_step s (advance (length s.current + 1) s) (λ s' less. comes_to_end n s' (omega arith)) refl
      (advance-Advances (length s.current + 1) s (omega arith))

-- From any place in a source, `advance` called again and again comes to the token of the end of the source, there,
-- after finitely many tokens that are no errors. Or it reads behind the NUL: then a block comment opens behind the
-- tokens so far, and the last byte of the source behind that opening is a star or a slash.
pub advance-ComesToEnd : (s : Scanner) → ComesToEnd s
advance-ComesToEnd s = comes_to_end (length s.current + 1) s (omega arith)
