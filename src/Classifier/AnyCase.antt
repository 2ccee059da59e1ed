-- ===== src/Classifier/AnyCase.antt =====
-- The keywords of a text, and so its class, do not depend on the case of its letters.
use Prim.Native.Nat.{zero, suc}
use grunyas.Prelude.{
  ℕ, ◌≡◌, refl, Bool, Bool-cases, false, Option, none, some, [], ◌∷◌, length, arith, inl, inr, ◌==◌,
  if◌then◌else◌,
}
use grunyas.Classifier.Text.{
  Text, after, token, after_token, starts_with, rest, to_lower, take, codes,
}
use grunyas.Classifier.Scan.{
  strip, list_loop, token_list_contains, words_loop, words_have_analyze, ends_keyword, ends_option,
  close_paren, options_have_analyze, depth_after, push_inner, explain_has_analyze, first_keyword,
}
use grunyas.Classifier.Statement.{classify_by_keyword}
use grunyas.Classifier.LetterCase.{
  lower, lower_option, lower_idem, IgnoresCase, ends_keyword-IgnoresCase, ends_option-IgnoresCase,
  length-lower, is_empty-lower, take-lower, starts_with-lower, rest-lower, after-lower, token-lower,
  after_token-lower, strip-lower, eq-to_lower,
}

lower-token :
    (stop : ℕ → Bool) (s : Text)
    → IgnoresCase stop
    → lower (token stop (lower s)) ≡ lower (token stop s)
lower-token stop s h = rw (token-lower stop s h) (lower_idem (token stop s))

next-lower :
    (out : Bool) (f : ℕ) (target : Text) (o : Option Text)
    → ((u : Text) → list_loop out f target (lower u) ≡ list_loop out f target u)
    → elim (lower_option o) as (λ _. Bool) [
      | none ↦ false
      | some t ↦ list_loop out f target (strip t)
    ]
      ≡ elim o as (λ _. Bool) [ none ↦ false | some t ↦ list_loop out f target (strip t) ]
next-lower out f target none h = refl
next-lower out f target (some t) h = rw (strip-lower t) (h (strip t))

list_loop-lower :
    (out : Bool) (f : ℕ) (target s : Text)
    → list_loop out f target (lower s) ≡ list_loop out f target s
unfolding list_loop
list_loop-lower out zero target s = refl
list_loop-lower out (suc f) target s =
    rw
      (
        is_empty-lower s,
        starts_with-lower 44 s (omega arith),
        lower-token ends_option s ends_option-IgnoresCase,
        rest-lower s,
        strip-lower (rest s),
        list_loop-lower out f target (strip (rest s)),
        after-lower 44 s (omega arith),
        next-lower out f target (after 44 s) (list_loop-lower out f target),
      )
      refl

token_list_contains-lower :
    (s target : Text) → token_list_contains (lower s) target ≡ token_list_contains s target
unfolding token_list_contains
token_list_contains-lower s target =
    rw (length-lower s, strip-lower s) (list_loop-lower false (suc (length s)) target (strip s))

words_loop-lower : (out : Bool) (f : ℕ) (s : Text) → words_loop out f (lower s) ≡ words_loop out f s
unfolding words_loop
words_loop-lower out zero s = refl
words_loop-lower out (suc f) s =
    rw
      (
        strip-lower s,
        is_empty-lower (strip s),
        lower-token ends_keyword (strip s) ends_keyword-IgnoresCase,
        after_token-lower ends_keyword (strip s) ends_keyword-IgnoresCase,
        words_loop-lower out f (after_token ends_keyword (strip s)),
      )
      refl

words_have_analyze-lower : (s : Text) → words_have_analyze (lower s) ≡ words_have_analyze s
unfolding words_have_analyze
words_have_analyze-lower s = rw (length-lower s) (words_loop-lower false (suc (length s)) s)

abbrev lower_parts : Option (Text × Text) → Option (Text × Text)
lower_parts none = none
lower_parts (some (inner, tail)) = some (lower inner, lower tail)

depth_after-lower : (c depth : ℕ) → depth_after (to_lower c) depth ≡ depth_after c depth
unfolding depth_after
depth_after-lower c depth = rw (eq-to_lower 40 c (omega arith), eq-to_lower 41 c (omega arith)) refl

push_inner-lower :
    (c : ℕ) (o : Option (Text × Text))
    → push_inner (to_lower c) (lower_parts o) ≡ lower_parts (push_inner c o)
push_inner-lower c none = refl
push_inner-lower c (some (inner, tail)) = refl

closes :
    (c d d' : ℕ) (s : Text)
    → d ≡ d'
    → close_paren d' (lower s) ≡ lower_parts (close_paren d' s)
    → (if d == 0 then some ([], lower s) else push_inner (to_lower c) (close_paren d (lower s)))
      ≡ lower_parts (if d' == 0 then some ([], s) else push_inner c (close_paren d' s))
closes c d d' s e ih = elim (Bool-cases (d' == 0)) [
  | inl z ↦ rw (e, z) refl
  | inr z ↦ rw (e, z, ih) (push_inner-lower c (close_paren d' s))
]

options-lower :
    (s : Text) (o : Option (Text × Text))
    → options_have_analyze (lower s) (lower_parts o) ≡ options_have_analyze s o
unfolding options_have_analyze
options-lower s none = words_have_analyze-lower s
options-lower s (some (inner, tail)) =
    rw
      (
        token_list_contains-lower inner (codes "analyze"),
        strip-lower tail,
        words_have_analyze-lower (strip tail),
      )
      refl

close_paren-lower :
    (depth : ℕ) (s : Text) → close_paren depth (lower s) ≡ lower_parts (close_paren depth s)
unfolding close_paren
close_paren-lower depth [] = refl
close_paren-lower depth (c ∷ s) =
    closes c (depth_after (to_lower c) depth) (depth_after c depth) s (depth_after-lower c depth)
      (close_paren-lower (depth_after c depth) s)

by_paren :
    (t : Text)
    → (if starts_with b'(' (lower t)
        then options_have_analyze (lower t) (close_paren 1 (rest (lower t)))
        else words_have_analyze (lower t))
      ≡ (if starts_with b'(' t
          then options_have_analyze t (close_paren 1 (rest t))
          else words_have_analyze t)
by_paren t =
    rw
      (
        starts_with-lower 40 t (omega arith),
        rest-lower t,
        close_paren-lower 1 (rest t),
        options-lower t (close_paren 1 (rest t)),
        words_have_analyze-lower t,
      )
      refl

explain-lower : (s : Text) → explain_has_analyze (lower s) ≡ explain_has_analyze s
explain-lower s =
    unfold explain_has_analyze options_have_analyze in rw (strip-lower s) (by_paren (strip s))

first_keyword-lower : (s : Text) → first_keyword (lower s) ≡ first_keyword s
unfolding first_keyword
first_keyword-lower s =
    rw
      (
        take-lower 64 s,
        strip-lower (take 64 s),
        lower-token ends_keyword (strip (take 64 s)) ends_keyword-IgnoresCase,
        after_token-lower ends_keyword (strip (take 64 s)) ends_keyword-IgnoresCase,
        explain-lower (after_token ends_keyword (strip (take 64 s))),
      )
      refl

-- The letters of a statement may stand in either case: its class is the same.
pub classify_any_case : (s : Text) → classify_by_keyword (lower s) ≡ classify_by_keyword s
unfolding classify_by_keyword
classify_any_case s = rw (first_keyword-lower s) refl
