-- ===== src/Classifier/Comments.antt =====
-- Comments and space in front of a statement do not change its class.
use Prim.Native.Nat.{zero, suc}
use mathlib.Core.List.{append_assoc}
use grunyas.Prelude.{
  ℕ, ◌≤◌, ◌≡◌, refl, ap, true, none, some, [], ◌∷◌, ◌++◌, length, arith, ◌∙◌, length-append,
}
use grunyas.Classifier.Text.{Text, codes, trim_left, after, after_pair, is_space, take}
use grunyas.Classifier.Scan.{strip, keyword_of, first_keyword}
use grunyas.Classifier.Statement.{classify_by_keyword}
use grunyas.Classifier.Fuel.{strip_unroll, skipped}

-- What may stand in front of a statement: space, comments to the end of the line, and block
-- comments. A block comment ends at its first `*/`, and its body does not begin with `/`.
pub data Prolog : Text → Type 0 where
  nothing : Prolog []
  blank : (c : ℕ) {p : Text} → is_space c ≡ true → Prolog p → Prolog (c ∷ p)
  line :
      (body : Text) {p : Text}
      → after b'\n' body ≡ none
      → Prolog p
      → Prolog (45 ∷ 45 ∷ (body ++ 10 ∷ p))
  block :
      (body : Text) {p : Text}
      → after_pair b'*' b'/' (42 ∷ body) ≡ none
      → Prolog p
      → Prolog (47 ∷ 42 ∷ (body ++ 42 ∷ 47 ∷ p))

after-append : (body s : Text) → after 10 body ≡ none → after 10 (body ++ 10 ∷ s) ≡ some s
unfolding after
after-append [] s h = refl
after-append (c ∷ body) s h = ground (arith, h, after-append body s)

after_pair-append :
    (body s : Text) → after_pair 42 47 body ≡ none → after_pair 42 47 (body ++ 42 ∷ 47 ∷ s) ≡ some s
unfolding after_pair
after_pair-append [] s h = refl
after_pair-append (c ∷ []) s h = ground arith
after_pair-append (c ∷ d ∷ body) s h = ground (arith, h, after_pair-append (d ∷ body) s)

strip-blank : (c : ℕ) (s : Text) → is_space c ≡ true → strip (c ∷ s) ≡ strip s
strip-blank c s h = rw (strip_unroll (c ∷ s), strip_unroll s) (rw trimmed refl)
  where
    trimmed : trim_left (c ∷ s) ≡ trim_left s
    trimmed = unfold trim_left in rw h

strip-line : (body s : Text) → after 10 body ≡ none → strip (45 ∷ 45 ∷ (body ++ 10 ∷ s)) ≡ strip s
unfolding trim_left after
strip-line body s h =
    rw (strip_unroll (45 ∷ 45 ∷ (body ++ 10 ∷ s))) (rw (after-append body s h) refl)

strip-block :
    (body s : Text)
    → after_pair 42 47 (42 ∷ body) ≡ none
    → strip (47 ∷ 42 ∷ (body ++ 42 ∷ 47 ∷ s)) ≡ strip s
unfolding trim_left
strip-block body s h = rw (strip_unroll (47 ∷ 42 ∷ (body ++ 42 ∷ 47 ∷ s))) (ap skipped closed)
  where
    closed : after_pair 42 47 (47 ∷ 42 ∷ (body ++ 42 ∷ 47 ∷ s)) ≡ some s
    closed = unfold after_pair in after_pair-append (42 ∷ body) s h

strip-Prolog : {p : Text} (s : Text) → Prolog p → strip (p ++ s) ≡ strip s
strip-Prolog s nothing = refl
strip-Prolog s (blank c {p} h q) = strip-blank c (p ++ s) h ∙ strip-Prolog s q
strip-Prolog s (line body {p} h q) =
    rw (append_assoc body (10 ∷ p) s) (strip-line body (p ++ s) h) ∙ strip-Prolog s q
strip-Prolog s (block body {p} h q) =
    rw (append_assoc body (42 ∷ 47 ∷ p) s) (strip-block body (p ++ s) h) ∙ strip-Prolog s q

take_all : (n : ℕ) (s : Text) → length s ≤ n → take n s ≡ s
take_all zero [] h = refl
take_all zero (c ∷ s) h = absurd (omega arith)
take_all (suc n) [] h = refl
take_all (suc n) (c ∷ s) h = ap (λ t. c ∷ t) (take_all n s (omega arith))

first_keyword-Prolog :
    {p : Text} (s : Text)
    → Prolog p
    → length (p ++ s) ≤ 64
    → first_keyword (p ++ s) ≡ first_keyword s
unfolding first_keyword
first_keyword-Prolog {p} s q h = ap keyword_of (
    rw (take_all 64 (p ++ s) h, take_all 64 s (omega (arith, length-append p s)))
      (strip-Prolog s q))

-- A statement has the same class with and without the space and the comments in front of it, if all
-- of it, what stands in front included, is at most 64 bytes long. The comments in front are line
-- comments, and block comments that end at their first `*/` and whose body does not begin with `/`.
pub classify-Prolog :
    {p : Text} (s : Text)
    → Prolog p
    → length (p ++ s) ≤ 64
    → classify_by_keyword (p ++ s) ≡ classify_by_keyword s
unfolding classify_by_keyword
classify-Prolog s q h = rw (first_keyword-Prolog s q h) refl

first_keyword-open : (s : Text) → length s ≤ 61 → first_keyword (47 ∷ 42 ∷ 47 ∷ s) ≡ first_keyword s
unfolding first_keyword
first_keyword-open s h =
    ap keyword_of (rw (take_all 61 s h, take_all 64 s (omega arith)) (open_is_closed s))
  where
    closed : (s : Text) → after_pair 42 47 (47 ∷ 42 ∷ 47 ∷ s) ≡ some s
    closed s = unfold after_pair in refl

    open_is_closed : (s : Text) → strip (47 ∷ 42 ∷ 47 ∷ s) ≡ strip s
    open_is_closed s =
        unfold trim_left in rw (strip_unroll (47 ∷ 42 ∷ 47 ∷ s)) (ap skipped (closed s))

-- PostgreSQL reads `/*/` as the beginning of a comment, which goes on to the next `*/`. The
-- classifier takes it for a whole comment: with `/*/` in front, a text of at most 61 bytes has the
-- class that it has without it, though for the server its beginning is part of the comment.
pub open_comment_is_skipped :
    (s : Text) → length s ≤ 61 → classify_by_keyword (codes "/*/" ++ s) ≡ classify_by_keyword s
unfolding classify_by_keyword
open_comment_is_skipped s h = rw (first_keyword-open s h) refl
