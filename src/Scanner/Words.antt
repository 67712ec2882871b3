-- ===== src/Scanner/Words.antt =====
-- src/scanner.c: the reserved words, as `identifierType` tells them from identifiers.
use xan.Base.{
  ℕ, ◌+◌, Bool, true, false, ◌&&◌, List, [], ◌∷◌, ltb, ◌==◌, if◌then◌else◌, get_or, take, drop,
}
use xan.Scanner.Tokens.{
  TokenType, token_and, token_break, token_catch, token_class, token_continue, token_else,
  token_false, token_for, token_fun, token_identifier, token_if, token_nil, token_or, token_return,
  token_super, token_this, token_throw, token_true, token_try, token_var, token_while,
}

-- `memcmp(p, q, n) == 0` for the `n` bytes of `q`.
unfoldable pub same_bytes : List ℕ → List ℕ → Bool
same_bytes [] [] = true
same_bytes (a ∷ as') (b ∷ bs) = a == b && same_bytes as' bs
same_bytes _ _ = false

-- The lexeme is the `n` bytes from `start`.
unfoldable pub check_keyword : List ℕ → ℕ → ℕ → ℕ → List ℕ → TokenType → TokenType
unfolding same_bytes
check_keyword w n start len rest type =
    if n == start + len && same_bytes (take len (drop start w)) rest then type else token_identifier

-- `case 'e'`, which `case 'c'` falls through to.
unfoldable pub identifier_e : List ℕ → ℕ → TokenType
identifier_e w n = check_keyword w n 1 3 (b'l' ∷ b's' ∷ b'e' ∷ []) token_else

unfoldable pub identifier_c : List ℕ → ℕ → TokenType
identifier_c w n =
    let second = get_or w 1 0 in
    if ltb 1 n && second == b'a'
    then check_keyword w n 2 3 (b't' ∷ b'c' ∷ b'h' ∷ []) token_catch
    else if ltb 1 n && second == b'l'
    then check_keyword w n 2 3 (b'a' ∷ b's' ∷ b's' ∷ []) token_class
    else if ltb 1 n && second == b'o'
    then check_keyword w n 2 6 (b'n' ∷ b't' ∷ b'i' ∷ b'n' ∷ b'u' ∷ b'e' ∷ []) token_continue
    else identifier_e w n

unfoldable pub identifier_f : List ℕ → ℕ → TokenType
identifier_f w n =
    let second = get_or w 1 0 in
    if ltb 1 n && second == b'a'
    then check_keyword w n 2 3 (b'l' ∷ b's' ∷ b'e' ∷ []) token_false
    else if ltb 1 n && second == b'o'
    then check_keyword w n 2 1 (b'r' ∷ []) token_for
    else if ltb 1 n && second == b'u'
    then check_keyword w n 2 1 (b'n' ∷ []) token_fun
    else token_identifier

-- `case 'r'` behind a `t`, which `case 'h'` falls through to.
unfoldable pub identifier_tr : List ℕ → ℕ → TokenType
identifier_tr w n =
    let third = get_or w 2 0 in
    if ltb 2 n && third == b'u'
    then check_keyword w n 3 1 (b'e' ∷ []) token_true
    else if ltb 2 n && third == b'y'
    then check_keyword w n 3 0 [] token_try
    else token_identifier

unfoldable pub identifier_t : List ℕ → ℕ → TokenType
identifier_t w n =
    let second = get_or w 1 0 in
    let third = get_or w 2 0 in
    if ltb 1 n && second == b'h'
    then if ltb 2 n && third == b'i'
      then check_keyword w n 3 1 (b's' ∷ []) token_this
      else if ltb 2 n && third == b'r'
      then check_keyword w n 3 2 (b'o' ∷ b'w' ∷ []) token_throw
      else identifier_tr w n
    else if ltb 1 n && second == b'r'
    then identifier_tr w n
    else token_identifier

unfoldable pub identifier_type : List ℕ → ℕ → TokenType
identifier_type w n =
    let first = get_or w 0 0 in
    if first == b'a'
    then check_keyword w n 1 2 (b'n' ∷ b'd' ∷ []) token_and
    else if first == b'b'
    then check_keyword w n 1 4 (b'r' ∷ b'e' ∷ b'a' ∷ b'k' ∷ []) token_break
    else if first == b'c'
    then identifier_c w n
    else if first == b'e'
    then identifier_e w n
    else if first == b'f'
    then identifier_f w n
    else if first == b'i'
    then check_keyword w n 1 1 (b'f' ∷ []) token_if
    else if first == b'n'
    then check_keyword w n 1 2 (b'i' ∷ b'l' ∷ []) token_nil
    else if first == b'o'
    then check_keyword w n 1 1 (b'r' ∷ []) token_or
    else if first == b'r'
    then check_keyword w n 1 5 (b'e' ∷ b't' ∷ b'u' ∷ b'r' ∷ b'n' ∷ []) token_return
    else if first == b's'
    then check_keyword w n 1 4 (b'u' ∷ b'p' ∷ b'e' ∷ b'r' ∷ []) token_super
    else if first == b't'
    then identifier_t w n
    else if first == b'v'
    then check_keyword w n 1 2 (b'a' ∷ b'r' ∷ []) token_var
    else if first == b'w'
    then check_keyword w n 1 4 (b'h' ∷ b'i' ∷ b'l' ∷ b'e' ∷ []) token_while
    else token_identifier
