-- ===== src/Classifier/LetterCase.antt =====
-- The classification of a text does not depend on the case of its letters.
use Prim.Native.Nat.{zero, suc}
use grunyas.Prelude.{
  ℕ, ◌<◌, ◌≡◌, refl, ap, Bool, Bool-cases, Option, none, some, [], ◌∷◌, map, length, arith, inl,
  inr, ◌==◌, sym,
}
use grunyas.Classifier.Text.{
  Text, trim_left, after, after_pair, token, after_token, is_empty, starts_with, rest,
  starts_with_pair, to_lower, is_space, take,
}
use grunyas.Classifier.Scan.{strip_loop, strip, ends_keyword, ends_option}

abbrev pub lower : Text → Text
lower = map to_lower

abbrev pub lower_option : Option Text → Option Text
lower_option none = none
lower_option (some s) = some (lower s)

to_lower_idem : (c : ℕ) → to_lower (to_lower c) ≡ to_lower c
to_lower_idem c = ground arith

pub lower_idem : (s : Text) → lower (lower s) ≡ lower s
lower_idem [] = refl
lower_idem (c ∷ s) = cc (to_lower_idem c, lower_idem s)

-- A mark that is no letter.
pub eq-to_lower : (a c : ℕ) → a < 65 → (to_lower c == a) ≡ (c == a)
eq-to_lower a c h = ground arith

-- A test on bytes that does not see the case.
abbrev pub IgnoresCase : (ℕ → Bool) → Type 0
IgnoresCase p = (c : ℕ) → p (to_lower c) ≡ p c

is_space-IgnoresCase : IgnoresCase is_space
is_space-IgnoresCase c = ground arith

pub ends_keyword-IgnoresCase : IgnoresCase ends_keyword
ends_keyword-IgnoresCase c = ground arith

pub ends_option-IgnoresCase : IgnoresCase ends_option
ends_option-IgnoresCase c = ground arith

pub length-lower : (s : Text) → length (lower s) ≡ length s
length-lower [] = refl
length-lower (c ∷ s) = ap suc (length-lower s)

pub is_empty-lower : (s : Text) → is_empty (lower s) ≡ is_empty s
is_empty-lower [] = refl
is_empty-lower (c ∷ s) = refl

pub take-lower : (n : ℕ) (s : Text) → take n (lower s) ≡ lower (take n s)
take-lower zero s = refl
take-lower (suc n) [] = refl
take-lower (suc n) (c ∷ s) = cc (take-lower n s)

trim_left-lower : (s : Text) → trim_left (lower s) ≡ lower (trim_left s)
unfolding trim_left
trim_left-lower [] = refl
trim_left-lower (c ∷ s) = ground (arith, is_space-IgnoresCase c, trim_left-lower s)

pub starts_with-lower : (a : ℕ) (s : Text) → a < 65 → starts_with a (lower s) ≡ starts_with a s
starts_with-lower a [] h = refl
starts_with-lower a (c ∷ s) h = eq-to_lower a c h

starts_with_pair-lower :
    (a b : ℕ) (s : Text) → a < 65 → b < 65 → starts_with_pair a b (lower s) ≡ starts_with_pair a b s
starts_with_pair-lower a b [] h k = refl
starts_with_pair-lower a b (c ∷ s) h k = cc (eq-to_lower a c h, starts_with-lower b s k)

pub rest-lower : (s : Text) → rest (lower s) ≡ lower (rest s)
rest-lower [] = refl
rest-lower (c ∷ s) = refl

pub after-lower : (a : ℕ) (s : Text) → a < 65 → after a (lower s) ≡ lower_option (after a s)
unfolding after
after-lower a [] h = refl
after-lower a (c ∷ s) h = elim (Bool-cases (c == a)) [
  | inl e ↦ rw (eq-to_lower a c h, e) refl
  | inr e ↦ rw (eq-to_lower a c h, e) (after-lower a s h)
]

after_pair-lower :
    (a b : ℕ) (s : Text)
    → a < 65
    → b < 65
    → after_pair a b (lower s) ≡ lower_option (after_pair a b s)
unfolding after_pair
after_pair-lower a b [] h k = refl
after_pair-lower a b (c ∷ s) h k = elim (Bool-cases (starts_with_pair a b (c ∷ s))) [
  | inl e ↦ rw (starts_with_pair-lower a b (c ∷ s) h k, e) (ap some (rest-lower s))
  | inr e ↦ rw (starts_with_pair-lower a b (c ∷ s) h k, e) (after_pair-lower a b s h k)
]

pub token-lower :
    (stop : ℕ → Bool) (s : Text) → IgnoresCase stop → token stop (lower s) ≡ lower (token stop s)
unfolding token
token-lower stop [] h = refl
token-lower stop (c ∷ s) h = ground (arith, h c, token-lower stop s)

pub after_token-lower :
    (stop : ℕ → Bool) (s : Text)
    → IgnoresCase stop
    → after_token stop (lower s) ≡ lower (after_token stop s)
unfolding after_token
after_token-lower stop [] h = refl
after_token-lower stop (c ∷ s) h = ground (arith, h c, after_token-lower stop s)

-- What a loop makes of the text behind a mark.
continue-lower :
    (out : Text) (f : ℕ) (o : Option Text)
    → ((u : Text) → strip_loop out f (lower u) ≡ lower (strip_loop out f u))
    → elim (lower_option o) as (λ _. Text) [ none ↦ [] | some s ↦ strip_loop out f s ]
      ≡ lower (elim o as (λ _. Text) [ none ↦ [] | some s ↦ strip_loop out f s ])
continue-lower out f none h = refl
continue-lower out f (some s) h = h s

strip_loop-lower :
    (out : Text) (f : ℕ) (s : Text)
    → lower out ≡ out
    → strip_loop out f (lower s) ≡ lower (strip_loop out f s)
unfolding strip_loop
strip_loop-lower out zero s h = sym h
strip_loop-lower out (suc f) s h =
    let t = trim_left s in
    rw (trim_left-lower s) (
      rw
        (
          starts_with_pair-lower 45 45 t (omega arith) (omega arith),
          starts_with_pair-lower 47 42 t (omega arith) (omega arith),
          after-lower 10 t (omega arith),
          after_pair-lower 42 47 t (omega arith) (omega arith),
        )
        (ground (
          arith,
          continue-lower out f (after 10 t) (λ u. strip_loop-lower out f u h),
          continue-lower out f (after_pair 42 47 t) (λ u. strip_loop-lower out f u h),
        )))

pub strip-lower : (s : Text) → strip (lower s) ≡ lower (strip s)
unfolding strip
strip-lower s = rw length-lower (strip_loop-lower [] (suc (length s)) s refl)
