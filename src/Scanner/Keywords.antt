-- ===== src/Scanner/Keywords.antt =====
-- src/scanner.c: the hand-written trie of `identifierType` against the list of the reserved words.
use xan.Base.{
  ℕ, suc, ◌≡◌, refl, arith, ◌&&◌, List, [], ◌∷◌, ◌++◌, ◌==◌, if◌then◌else◌, length, take,
}
use xan.Scanner.Tokens.{
  TokenType, token_identifier, token_and, token_break, token_catch, token_class, token_continue,
  token_else, token_false, token_for, token_fun, token_if, token_nil, token_or, token_return,
  token_super, token_this, token_throw, token_true, token_try, token_var, token_while,
}
use xan.Scanner.Words.{
  same_bytes, check_keyword, identifier_e, identifier_c, identifier_f, identifier_tr, identifier_t,
  identifier_type,
}

-- The reserved words, and the type of each.
abbrev pub keywords : List (List ℕ × TokenType)
keywords =
    ((b'a' ∷ b'n' ∷ b'd' ∷ []), token_and)
    ∷ ((b'b' ∷ b'r' ∷ b'e' ∷ b'a' ∷ b'k' ∷ []), token_break)
    ∷ ((b'c' ∷ b'a' ∷ b't' ∷ b'c' ∷ b'h' ∷ []), token_catch)
    ∷ ((b'c' ∷ b'l' ∷ b'a' ∷ b's' ∷ b's' ∷ []), token_class)
    ∷ ((b'c' ∷ b'o' ∷ b'n' ∷ b't' ∷ b'i' ∷ b'n' ∷ b'u' ∷ b'e' ∷ []), token_continue)
    ∷ ((b'e' ∷ b'l' ∷ b's' ∷ b'e' ∷ []), token_else)
    ∷ ((b'f' ∷ b'a' ∷ b'l' ∷ b's' ∷ b'e' ∷ []), token_false)
    ∷ ((b'f' ∷ b'o' ∷ b'r' ∷ []), token_for)
    ∷ ((b'f' ∷ b'u' ∷ b'n' ∷ []), token_fun)
    ∷ ((b'i' ∷ b'f' ∷ []), token_if)
    ∷ ((b'n' ∷ b'i' ∷ b'l' ∷ []), token_nil)
    ∷ ((b'o' ∷ b'r' ∷ []), token_or)
    ∷ ((b'r' ∷ b'e' ∷ b't' ∷ b'u' ∷ b'r' ∷ b'n' ∷ []), token_return)
    ∷ ((b's' ∷ b'u' ∷ b'p' ∷ b'e' ∷ b'r' ∷ []), token_super)
    ∷ ((b't' ∷ b'h' ∷ b'i' ∷ b's' ∷ []), token_this)
    ∷ ((b't' ∷ b'h' ∷ b'r' ∷ b'o' ∷ b'w' ∷ []), token_throw)
    ∷ ((b't' ∷ b'r' ∷ b'u' ∷ b'e' ∷ []), token_true)
    ∷ ((b't' ∷ b'r' ∷ b'y' ∷ []), token_try)
    ∷ ((b'v' ∷ b'a' ∷ b'r' ∷ []), token_var)
    ∷ ((b'w' ∷ b'h' ∷ b'i' ∷ b'l' ∷ b'e' ∷ []), token_while)
    ∷ []

-- Two words that fall through to the wrong branch of the trie.
abbrev pub strays : List (List ℕ × TokenType)
strays =
    ((b't' ∷ b'h' ∷ b'u' ∷ b'e' ∷ []), token_true) ∷ ((b't' ∷ b'h' ∷ b'y' ∷ []), token_try) ∷ []

-- The type of a word by a list of words.
pub word_type : List (List ℕ × TokenType) → List ℕ → TokenType
word_type [] w = token_identifier
word_type ((k, t) ∷ ks) w = if same_bytes w k then t else word_type ks w

same_bytes-nil : (w : List ℕ) → same_bytes w [] ≡ (length w == 0)
unfolding same_bytes
same_bytes-nil [] = refl
same_bytes-nil (a ∷ w) = ground arith

same_bytes-take :
    (w k rest : List ℕ)
    → (length w == length k && same_bytes (take (length k) (w ++ rest)) k) ≡ same_bytes w k
unfolding same_bytes
same_bytes-take [] [] rest = refl
same_bytes-take [] (b ∷ k) rest = ground arith
same_bytes-take (a ∷ w) [] rest = ground arith
same_bytes-take (a ∷ w) (b ∷ k) rest = ground (arith, same_bytes-take w k rest)

-- The tests behind one, two or three bytes that have been told apart.
module _ (a : ℕ) (w rest k : List ℕ) (t : TokenType) where
  check_after_one :
      check_keyword (a ∷ (w ++ rest)) (suc (length w)) 1 (length k) k t
      ≡ (if same_bytes w k then t else token_identifier)
  unfolding check_keyword
  check_after_one = ground (arith, same_bytes-take w k rest)

  check_after_two :
      (b : ℕ)
      → check_keyword (a ∷ b ∷ (w ++ rest)) (suc (suc (length w))) 2 (length k) k t
        ≡ (if same_bytes w k then t else token_identifier)
  unfolding check_keyword
  check_after_two b = ground (arith, same_bytes-take w k rest)

  check_after_three :
      (b c : ℕ)
      → check_keyword (a ∷ b ∷ c ∷ (w ++ rest)) (suc (suc (suc (length w)))) 3 (length k) k t
        ≡ (if same_bytes w k then t else token_identifier)
  unfolding check_keyword
  check_after_three b c = ground (arith, same_bytes-take w k rest)

identifier_e_lem :
    (a : ℕ) (w rest : List ℕ)
    → identifier_e (a ∷ (w ++ rest)) (suc (length w))
      ≡ (if same_bytes w ((b'l' ∷ b's' ∷ b'e' ∷ [])) then token_else else token_identifier)
unfolding identifier_e
identifier_e_lem a w rest = check_after_one a w rest ((b'l' ∷ b's' ∷ b'e' ∷ [])) token_else

abbrev c_words : List (List ℕ × TokenType)
c_words =
    ((b'a' ∷ b't' ∷ b'c' ∷ b'h' ∷ []), token_catch)
    ∷ ((b'l' ∷ b'a' ∷ b's' ∷ b's' ∷ []), token_class)
    ∷ ((b'o' ∷ b'n' ∷ b't' ∷ b'i' ∷ b'n' ∷ b'u' ∷ b'e' ∷ []), token_continue)
    ∷ []

identifier_c_lem :
    (a : ℕ) (w rest : List ℕ)
    → identifier_c (a ∷ (w ++ rest)) (suc (length w)) ≡ word_type c_words w
unfolding identifier_c word_type same_bytes
identifier_c_lem a [] rest = ground (arith, identifier_e_lem a [] rest)
identifier_c_lem a (b ∷ w) rest = ground (
  arith,
  check_after_two a w rest ((b't' ∷ b'c' ∷ b'h' ∷ [])) token_catch b,
  check_after_two a w rest ((b'a' ∷ b's' ∷ b's' ∷ [])) token_class b,
  check_after_two a w rest ((b'n' ∷ b't' ∷ b'i' ∷ b'n' ∷ b'u' ∷ b'e' ∷ [])) token_continue b,
  identifier_e_lem a (b ∷ w) rest,
)

abbrev f_words : List (List ℕ × TokenType)
f_words =
    ((b'a' ∷ b'l' ∷ b's' ∷ b'e' ∷ []), token_false)
    ∷ ((b'o' ∷ b'r' ∷ []), token_for)
    ∷ ((b'u' ∷ b'n' ∷ []), token_fun)
    ∷ []

identifier_f_lem :
    (a : ℕ) (w rest : List ℕ)
    → identifier_f (a ∷ (w ++ rest)) (suc (length w)) ≡ word_type f_words w
unfolding identifier_f word_type same_bytes
identifier_f_lem a [] rest = ground arith
identifier_f_lem a (b ∷ w) rest = ground (
  arith,
  check_after_two a w rest (b'l' ∷ b's' ∷ b'e' ∷ []) token_false b,
  check_after_two a w rest (b'r' ∷ []) token_for b,
  check_after_two a w rest (b'n' ∷ []) token_fun b,
)

abbrev tr_words : List (List ℕ × TokenType)
tr_words = ((b'u' ∷ b'e' ∷ []), token_true) ∷ ((b'y' ∷ []), token_try) ∷ []

identifier_tr_lem :
    (a b : ℕ) (w rest : List ℕ)
    → identifier_tr (a ∷ b ∷ (w ++ rest)) (suc (suc (length w))) ≡ word_type tr_words w
unfolding identifier_tr word_type same_bytes
identifier_tr_lem a b [] rest = ground arith
identifier_tr_lem a b (c ∷ w) rest = ground (
  arith,
  check_after_three a w rest (b'e' ∷ []) token_true b c,
  check_after_three a w rest [] token_try b c,
  same_bytes-nil w,
)

abbrev t_words : List (List ℕ × TokenType)
t_words =
    ((b'h' ∷ b'i' ∷ b's' ∷ []), token_this)
    ∷ ((b'h' ∷ b'r' ∷ b'o' ∷ b'w' ∷ []), token_throw)
    ∷ ((b'r' ∷ b'u' ∷ b'e' ∷ []), token_true)
    ∷ ((b'r' ∷ b'y' ∷ []), token_try)
    ∷ ((b'h' ∷ b'u' ∷ b'e' ∷ []), token_true)
    ∷ ((b'h' ∷ b'y' ∷ []), token_try)
    ∷ []

identifier_t_lem :
    (a : ℕ) (w rest : List ℕ)
    → identifier_t (a ∷ (w ++ rest)) (suc (length w)) ≡ word_type t_words w
unfolding identifier_t word_type same_bytes
identifier_t_lem a [] rest = ground arith
identifier_t_lem a (b ∷ []) rest = ground (arith, identifier_tr_lem a b [] rest)
identifier_t_lem a (b ∷ c ∷ w) rest = ground (
  arith,
  check_after_three a w rest (b's' ∷ []) token_this b c,
  check_after_three a w rest (b'o' ∷ b'w' ∷ []) token_throw b c,
  identifier_tr_lem a b (c ∷ w) rest,
)

-- The type of a lexeme, whatever follows it in the source, is that of the reserved word that it
-- is; but `thue` and `thy` count as the reserved words `true` and `try` too, since `case 'h'`
-- falls through to `case 'r'`. Every other lexeme is an identifier.
pub identifier_type-word_type :
    (a : ℕ) (w rest : List ℕ)
    → identifier_type (a ∷ w ++ rest) (suc (length w)) ≡ word_type (keywords ++ strays) (a ∷ w)
unfolding identifier_type word_type same_bytes
identifier_type-word_type a w rest = ground (
  arith,
  check_after_one a w rest (b'n' ∷ b'd' ∷ []) token_and,
  check_after_one a w rest (b'r' ∷ b'e' ∷ b'a' ∷ b'k' ∷ []) token_break,
  identifier_c_lem a w rest,
  identifier_e_lem a w rest,
  identifier_f_lem a w rest,
  check_after_one a w rest (b'f' ∷ []) token_if,
  check_after_one a w rest (b'i' ∷ b'l' ∷ []) token_nil,
  check_after_one a w rest (b'r' ∷ []) token_or,
  check_after_one a w rest (b'e' ∷ b't' ∷ b'u' ∷ b'r' ∷ b'n' ∷ []) token_return,
  check_after_one a w rest (b'u' ∷ b'p' ∷ b'e' ∷ b'r' ∷ []) token_super,
  identifier_t_lem a w rest,
  check_after_one a w rest (b'a' ∷ b'r' ∷ []) token_var,
  check_after_one a w rest (b'h' ∷ b'i' ∷ b'l' ∷ b'e' ∷ []) token_while,
)
