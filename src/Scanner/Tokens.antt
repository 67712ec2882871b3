-- ===== src/Scanner/Tokens.antt =====
-- src/scanner.h: the token types. A C string is the list of its bytes up to the terminating NUL,
-- and a pointer into it is the list of the bytes from there on.
use Prim.Native.Char.{code}
use Prim.Native.String.{String}
use xan.Base.{ℕ, List, [], ◌∷◌}

pub data TokenType : Type 0 where
  no_token token_left_paren token_right_paren token_left_brace token_right_brace : TokenType
  token_left_bracket token_right_bracket token_comma token_colon token_dot : TokenType
  token_minus token_plus token_semicolon token_slash token_percent : TokenType
  token_star token_bang token_bang_equal token_equal token_equal_equal : TokenType
  token_greater token_greater_equal token_less token_less_equal token_identifier : TokenType
  token_string token_number token_and token_break token_catch : TokenType
  token_class token_continue token_else token_false token_for : TokenType
  token_fun token_if token_nil token_or token_return : TokenType
  token_super token_this token_throw token_true token_try : TokenType
  token_var token_while token_error token_eof : TokenType

-- `length` bytes from `start`; of an error token, its message.
pub record Token : Type 0 where
  pub type : TokenType
  pub start : List ℕ
  pub length : ℕ
  pub line : ℕ

-- The bytes of an ASCII literal.
abbrev pub codes : String → List ℕ
codes String.[] = []
codes (String.◌∷◌ c s) = code c ∷ codes s
