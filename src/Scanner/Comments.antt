-- ===== src/Scanner/Comments.antt =====
-- src/scanner.c: what `multilineComment` does behind a body without stars, slashes and NULs.
use xan.Base.{
  ℕ, zero, suc, ◌+◌, ◌≡◌, ◌≢◌, refl, ap, ◌∙◌, arith, false, List, [], ◌∷◌, ◌++◌, length,
  length-append,
}
use xan.Scanner.{ok, overrun, comment_loop, multiline_comment}

-- No byte of the list is a star, a slash or the NUL.
abbrev pub IsPlain : List ℕ → Type 0
IsPlain [] = Unit
IsPlain (c ∷ cs) = (c ≢ b'*') × (c ≢ b'/') × (c ≢ 0) × IsPlain cs

comment_loop-plain :
    (body rest : List ℕ) (total fuel nesting : ℕ)
    → IsPlain body
    → total ≡ length body + fuel
    → comment_loop total (suc nesting) (body ++ rest) ≡ comment_loop fuel (suc nesting) rest
unfolding comment_loop
comment_loop-plain [] rest total fuel nesting plain enough =
    ap (λ n. comment_loop n (suc nesting) rest) (omega arith)
comment_loop-plain (c ∷ cs) rest zero fuel nesting plain enough = absurd (omega arith)
comment_loop-plain (c ∷ cs) rest (suc total) fuel nesting (star, slash, nul, plain) enough =
    ground (arith, comment_loop-plain cs rest total fuel nesting plain)

-- Behind the opening of a comment, a body without stars, slashes and NULs that a star and a slash
-- follow ends there: the scanner goes on with what follows them.
pub multiline_comment-plain :
    (body rest : List ℕ)
    → IsPlain body
    → multiline_comment (body ++ b'*' ∷ b'/' ∷ rest) ≡ ok (false, rest)
unfolding multiline_comment comment_loop
multiline_comment-plain body rest plain =
    comment_loop-plain body _ _ (suc (suc (length rest + 2))) 0 plain
      (omega (arith, length-append body (b'*' ∷ b'/' ∷ rest)))
    ∙ refl

-- A comment whose body, without stars, slashes and NULs, is followed by two stars and a slash, at the end of the source, is not
-- closed there: the scanner reads behind the NUL.
pub multiline_comment-stars :
    (body : List ℕ) → IsPlain body → multiline_comment (body ++ b'*' ∷ b'*' ∷ b'/' ∷ []) ≡ overrun
unfolding multiline_comment comment_loop
multiline_comment-stars body plain =
    comment_loop-plain body _ _ 5 0 plain
      (omega (arith, length-append body (b'*' ∷ b'*' ∷ b'/' ∷ [])))
    ∙ refl
