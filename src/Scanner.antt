-- ===== src/Scanner.antt =====
-- src/scanner.c: the scanner. Reading past the terminating NUL of the source is a result of its own.
pub mod Tokens
pub mod Words
pub mod Keywords
pub mod Progress
pub mod Slices
pub mod Comments
pub mod Steps
pub mod Advance
use xan.Base.{
  ℕ, zero, suc, ◌+◌, ◌-◌, Bool, true, false, not, ◌&&◌, ◌||◌, List, [], ◌∷◌, Option, none, some,
  ltb, leb, ◌==◌, if◌then◌else◌, length, get_or, take, drop,
}
use Words.{identifier_type}
use Tokens.{
  Token, TokenType, codes, token_left_paren, token_right_paren, token_left_brace, token_right_brace,
  token_left_bracket, token_right_bracket, token_comma, token_colon, token_dot, token_minus,
  token_plus, token_semicolon, token_slash, token_percent, token_star, token_bang, token_bang_equal,
  token_equal, token_equal_equal, token_greater, token_greater_equal, token_less, token_less_equal,
  token_identifier, token_string, token_number, token_and, token_break, token_catch, token_class,
  token_continue, token_else, token_false, token_for, token_fun, token_if, token_nil, token_or,
  token_return, token_super, token_this, token_throw, token_true, token_try, token_var, token_while,
  token_error, token_eof,
}

pub record Scanner : Type 0 where
  pub start : List ℕ
  pub current : List ℕ
  pub line : ℕ

-- `overrun` is a read behind the NUL; `no_fuel` is a loop that has not ended.
pub data Result (A : Type 0) : Type 0 where
  ok : A → Result A
  overrun : Result A
  no_fuel : Result A

unfoldable pub init_scanner : List ℕ → Scanner
init_scanner source = record { start = source; current = source; line = 1 }

unfoldable pub duplicate_scanner : Scanner → Scanner
duplicate_scanner s = record { start = s.start; current = s.current; line = s.line }

abbrev pub is_digit : ℕ → Bool
is_digit c = leb b'0' c && leb c b'9'

abbrev pub is_alpha : ℕ → Bool
is_alpha c = (leb b'a' c && leb c b'z') || (leb b'A' c && leb c b'Z') || c == b'_'

-- `*p`: the byte at a pointer, the NUL at the end.
abbrev pub peek : List ℕ → ℕ
peek [] = 0
peek (c ∷ cs) = c

abbrev pub is_at_end : List ℕ → Bool
is_at_end p = peek p == 0

abbrev pub peek_next : List ℕ → ℕ
peek_next p = if is_at_end p then 0 else peek (drop 1 p)

-- The pointer behind a byte that is not the NUL at the end.
abbrev pub advanced : List ℕ → List ℕ
advanced [] = []
advanced (c ∷ cs) = cs

-- `match`: the flag and the pointer afterwards.
abbrev pub matches : List ℕ → ℕ → Bool
matches p expected = not (is_at_end p) && peek p == expected

abbrev pub after_match : List ℕ → ℕ → List ℕ
after_match p expected = if matches p expected then advanced p else p

unfoldable pub make_token : Scanner → TokenType → Token
make_token s type = record {
  type = type;
  start = s.start;
  length = length s.start - length s.current;
  line = s.line;
}

unfoldable pub error_token : Scanner → List ℕ → Token
error_token s message = record {
  type = token_error;
  start = message;
  length = length message;
  line = s.line;
}

-- `while(p(peek(s))) advance(s)`, for a test that the NUL does not pass.
unfoldable pub skip_while : (ℕ → Bool) → List ℕ → List ℕ
skip_while p [] = []
skip_while p (c ∷ cs) = if p c then skip_while p cs else c ∷ cs

-- The loop of `multilineComment`, from a pointer and a depth of nesting. The result is whether the
-- source ended first, and the pointer.
unfoldable pub comment_loop : ℕ → ℕ → List ℕ → Result (Bool × List ℕ)
comment_loop zero nesting p = no_fuel
comment_loop (suc fuel) zero p = ok (false, p)
comment_loop (suc fuel) (suc nesting) p =
    let star = after_match p b'*' in
    let closed = matches p b'*' && matches star b'/' in
    let slash = after_match star b'/' in
    let opened = matches star b'/' && matches slash b'*' in
    let close = comment_loop fuel nesting (after_match star b'/') in
    let nest = comment_loop fuel (suc (suc nesting)) (after_match slash b'*') in
    let step = comment_loop fuel (suc nesting) (advanced slash) in
    if is_at_end p
    then ok (true, p)
    else if closed
    then close
    else if opened
    then nest
    else elim slash [ [] ↦ overrun | _ ∷ _ ↦ step ]

abbrev pub is_space : ℕ → Bool
is_space c = c == b'\n' || c == b' ' || c == b'\r' || c == b'\t'

-- The loop of `skipWhitespace`.
unfoldable pub skip_space : List ℕ → ℕ → List ℕ × ℕ
skip_space [] line = ([], line)
skip_space (c ∷ cs) line =
    let rest = skip_space cs (if c == b'\n' then line + 1 else line) in
    if is_space c then rest else (c ∷ cs, line)

unfoldable pub skip_whitespace : Scanner → Scanner
unfolding skip_space
skip_whitespace s = let r = skip_space s.current s.line in record s { current = r.0; line = r.1 }

-- The loop of `string`.
unfoldable pub string_loop : List ℕ → ℕ → List ℕ × ℕ
string_loop [] line = ([], line)
string_loop (c ∷ cs) line =
    let rest = string_loop cs (if c == b'\n' then line + 1 else line) in
    if c == b'"' || c == 0 then (c ∷ cs, line) else rest

unfoldable pub string : Scanner → Token × Scanner
unfolding string_loop make_token error_token
string s =
    let r = string_loop s.current s.line in
    let s' = record s { current = r.0; line = r.1 } in
    let closed = record s' { current = advanced r.0 } in
    if is_at_end r.0
    then (error_token s' (codes "Unterminated string."), s')
    else (make_token closed token_string, closed)

unfoldable pub number : Scanner → Token × Scanner
unfolding skip_while make_token
number s =
    let whole = skip_while is_digit s.current in
    let rest =
      (if peek whole == b'.' && is_digit (peek_next whole)
        then skip_while is_digit (advanced whole)
        else whole) in
    let s' = record s { current = rest } in (make_token s' token_number, s')

unfoldable pub identifier : Scanner → Token × Scanner
unfolding skip_while make_token
identifier s =
    let s' = record s { current = skip_while (λ c. is_alpha c || is_digit c) s.current } in
    (make_token s' (identifier_type s.start (length s.start - length s'.current)), s')

-- The cases of `scanToken` that do not depend on what follows the byte.
unfoldable pub punctuation : ℕ → Option TokenType
punctuation c =
    if c == b'('
    then some token_left_paren
    else if c == b')'
    then some token_right_paren
    else if c == b'{'
    then some token_left_brace
    else if c == b'}'
    then some token_right_brace
    else if c == b'['
    then some token_left_bracket
    else if c == b']'
    then some token_right_bracket
    else if c == b';'
    then some token_semicolon
    else if c == b':'
    then some token_colon
    else if c == b','
    then some token_comma
    else if c == b'.'
    then some token_dot
    else if c == b'-'
    then some token_minus
    else if c == b'+'
    then some token_plus
    else if c == b'%'
    then some token_percent
    else if c == b'*'
    then some token_star
    else none

-- The cases of a byte that a `=` may follow: the types with it and without it.
unfoldable pub comparison : ℕ → Option (TokenType × TokenType)
comparison c =
    if c == b'!'
    then some (token_bang_equal, token_bang)
    else if c == b'='
    then some (token_equal_equal, token_equal)
    else if c == b'<'
    then some (token_less_equal, token_less)
    else if c == b'>'
    then some (token_greater_equal, token_greater)
    else none

-- `multilineComment`, with fuel for one round for each byte and one for the end.
unfoldable pub multiline_comment : List ℕ → Result (Bool × List ℕ)
unfolding comment_loop
multiline_comment p = comment_loop (length p + 2) 1 p

abbrev pub in_line : ℕ → Bool
in_line c = not (c == b'\n') && not (c == 0)

-- What a round of the loop of `scanToken` does: it returns a token, or goes round again.
pub data Round : Type 0 where
  returns : Token → Scanner → Round
  continues : Scanner → Round
  overruns : Round
  waits : Round

-- What `scanToken` does with the result of `multilineComment`.
unfoldable pub after_comment : Scanner → Result (Bool × List ℕ) → Round
unfolding error_token
after_comment s (ok (true, p)) =
    let s' = record s { current = p } in returns (error_token s' (codes "Unterminated comment.")) s'
after_comment s (ok (false, p)) = continues (record s { current = p })
after_comment s overrun = overruns
after_comment s no_fuel = waits

-- `case '/'`, behind the slash.
unfoldable pub slash : Scanner → Round
unfolding skip_while make_token after_comment
slash s =
    if matches s.current b'/'
    then continues (record s { current = skip_while in_line (advanced s.current) })
    else if matches s.current b'*'
    then after_comment s (multiline_comment (advanced s.current))
    else returns (make_token s token_slash) s

abbrev give : Token × Scanner → Round
give r = returns r.0 r.1

-- The `switch` of `scanToken` on a byte that has been read.
unfoldable pub dispatch : Scanner → ℕ → Round
unfolding punctuation comparison string slash make_token error_token
dispatch s c = elim (punctuation c) [
  | some type ↦ returns (make_token s type) s
  | none ↦ elim (comparison c) [
    | some (long, short) ↦
        let s' = record s { current = after_match s.current b'=' } in
        returns (make_token s' (if matches s.current b'=' then long else short)) s'
    | none ↦
        if c == b'"'
        then give (string s)
        else if c == b'/'
        then slash s
        else returns (error_token s (codes "Unexpected character.")) s
  ]
]

-- One round of the loop of `scanToken`.
unfoldable pub round : Scanner → Round
unfolding skip_whitespace make_token number identifier dispatch
round s =
    let white = skip_whitespace s in
    let begin = record white { start = white.current } in
    let c = peek begin.current in
    let next = record begin { current = advanced begin.current } in
    if is_at_end begin.current
    then returns (make_token begin token_eof) begin
    else if is_digit c
    then give (number next)
    else if is_alpha c
    then give (identifier next)
    else dispatch next c

-- A token ends the loop; otherwise `again` goes round it.
unfoldable pub after_round : (Scanner → Result (Token × Scanner)) → Round → Result (Token × Scanner)
after_round again (returns t s) = ok (t, s)
after_round again (continues s) = again s
after_round again overruns = overrun
after_round again waits = no_fuel

unfoldable pub scan_loop : ℕ → Scanner → Result (Token × Scanner)
unfolding round after_round
scan_loop zero s = no_fuel
scan_loop (suc fuel) s = after_round (scan_loop fuel) (round s)

-- A round that goes on has passed a comment of two bytes at least, so one round for each byte of
-- the source is enough.
unfoldable pub scan_token : Scanner → Result (Token × Scanner)
unfolding scan_loop
scan_token s = scan_loop (length s.current + 1) s
