-- ===== src/Tests/Scanning.antt =====
-- src/scanner.c on concrete sources.
use xan.Base.{ℕ, ◌≡◌, arith, false, List, [], ◌∷◌, ◌++◌}
use xan.Scanner.{ok, overrun, init_scanner, scan_token, multiline_comment}
use xan.Scanner.Words.{identifier_type}
use xan.Scanner.Tokens.{codes}
use xan.Scanner.Keywords.{keywords, strays, word_type, identifier_type-word_type}
use xan.Scanner.Advance.{ComesToEnd, advance-ComesToEnd}
use xan.Scanner.Slices.{Scans, scan_token-Scans}
use xan.Scanner.Comments.{IsPlain, multiline_comment-plain, multiline_comment-stars}

abbrev loop_source : List ℕ
loop_source = codes "/* go */ while(x)"

identifier_type-word_type_example :
    identifier_type (codes "while(x)") 5 ≡ word_type (keywords ++ strays) (codes "while")
identifier_type-word_type_example = identifier_type-word_type b'w' (codes "hile") (codes "(x)")

scan_token-Scans_example : Scans loop_source (scan_token (init_scanner loop_source))
unfolding init_scanner
scan_token-Scans_example = scan_token-Scans (init_scanner loop_source)

go-IsPlain : IsPlain (codes " go ")
go-IsPlain = (
  λ e. omega arith,
  λ e. omega arith,
  λ e. omega arith,
  (
    λ e. omega arith,
    λ e. omega arith,
    λ e. omega arith,
    (
      λ e. omega arith,
      λ e. omega arith,
      λ e. omega arith,
      (λ e. omega arith, λ e. omega arith, λ e. omega arith, tt),
    ),
  ),
)

multiline_comment-plain_example :
    multiline_comment (codes " go " ++ b'*' ∷ b'/' ∷ codes "x") ≡ ok (false, codes "x")
multiline_comment-plain_example = multiline_comment-plain (codes " go ") (codes "x") go-IsPlain

multiline_comment-stars_example :
    multiline_comment (codes " go " ++ b'*' ∷ b'*' ∷ b'/' ∷ []) ≡ overrun
multiline_comment-stars_example = multiline_comment-stars (codes " go ") go-IsPlain

advance-ComesToEnd_example : ComesToEnd (init_scanner loop_source)
unfolding init_scanner
advance-ComesToEnd_example = advance-ComesToEnd (init_scanner loop_source)
