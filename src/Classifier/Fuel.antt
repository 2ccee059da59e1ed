-- ===== src/Classifier/Fuel.antt =====
-- The loops of the scanners end: each round shortens the text, so the fuel never runs out.
use Prim.Native.Nat.{zero, suc}
use grunyas.Prelude.{
  ℕ, ◌≤◌, ◌<◌, ◌≡◌, refl, Bool, Bool-cases, false, Option, none, some, [], ◌∷◌, map, length, arith,
  inl, inr, ◌==◌, if◌then◌else◌,
}
use grunyas.Classifier.Text.{
  Text, trim_left, after, after_pair, token, after_token, is_empty, rest, starts_with_pair,
  to_lower,
}
use grunyas.Classifier.Scan.{
  strip_loop, strip, words_loop, ends_keyword, list_loop, words_have_analyze, token_list_contains,
}

pub length-trim_left : (s : Text) → length (trim_left s) ≤ length s
unfolding trim_left
length-trim_left [] = omega arith
length-trim_left (c ∷ s) = ground (arith, length-trim_left s)

-- What stands behind a mark is shorter than the text.
abbrev pub IsShorter : Text → Option Text → Type 0
IsShorter s none = Unit
IsShorter s (some t) = length t < length s

IsShorter-cons : (c : ℕ) (s : Text) (o : Option Text) → IsShorter s o → IsShorter (c ∷ s) o
IsShorter-cons c s none h = tt
IsShorter-cons c s (some t) h = omega arith

pub after-IsShorter : (sep : ℕ) (s : Text) → IsShorter s (after sep s)
unfolding after
after-IsShorter sep [] = tt
after-IsShorter sep (c ∷ s) = elim (Bool-cases (c == sep)) [
  | inl e ↦ rw e (omega arith)
  | inr e ↦ rw e (IsShorter-cons c s (after sep s) (after-IsShorter sep s))
]

length-rest : (s : Text) → length (rest s) ≤ length s
length-rest [] = omega arith
length-rest (c ∷ s) = omega arith

pub after_pair-IsShorter : (a b : ℕ) (s : Text) → IsShorter s (after_pair a b s)
unfolding after_pair
after_pair-IsShorter a b [] = tt
after_pair-IsShorter a b (c ∷ s) = elim (Bool-cases (starts_with_pair a b (c ∷ s))) [
  | inl e ↦ rw e (omega (arith, length-rest s))
  | inr e ↦ rw e (IsShorter-cons c s (after_pair a b s) (after_pair-IsShorter a b s))
]

-- Two runs of the loop agree behind a comment if they agree on all shorter texts.
continue_eq :
    (a b : Text) (f g : ℕ) (t : Text) (o : Option Text)
    → IsShorter t o
    → ((u : Text) → length u < length t → strip_loop a f u ≡ strip_loop b g u)
    → elim o [ none ↦ [] | some s ↦ strip_loop a f s ]
      ≡ elim o [ none ↦ [] | some s ↦ strip_loop b g s ]
continue_eq a b f g t none h e = refl
continue_eq a b f g t (some s) h e = e s h

strip_loop_enough :
    (a b : Text) (f g : ℕ) (s : Text)
    → length s < f
    → length s < g
    → strip_loop a f s ≡ strip_loop b g s
unfolding strip_loop
strip_loop_enough a b zero g s h k = absurd (omega arith)
strip_loop_enough a b (suc f) zero s h k = absurd (omega arith)
strip_loop_enough a b (suc f) (suc g) s h k =
    let t = trim_left s in
    let ih : (u : Text) → length u < length t → strip_loop a f u ≡ strip_loop b g u = λ u m.
      let short = length-trim_left s in
      strip_loop_enough a b f g u (omega (arith, short)) (omega (arith, short)) in
    cc (
      continue_eq a b f g t (after 10 t) (after-IsShorter 10 t) ih,
      continue_eq a b f g t (after_pair 42 47 t) (after_pair-IsShorter 42 47 t) ih,
    )

length-strip_loop : (f : ℕ) (s : Text) → length (strip_loop [] f s) ≤ length s
unfolding strip_loop
length-strip_loop zero s = omega arith
length-strip_loop (suc f) s =
    let t = trim_left s in
    ground (
      arith,
      length-trim_left s,
      continued f t (after 10 t) (after-IsShorter 10 t) (length-strip_loop f),
      continued f t (after_pair 42 47 t) (after_pair-IsShorter 42 47 t) (length-strip_loop f),
    )
  where
    continued :
        (f : ℕ) (t : Text) (o : Option Text)
        → IsShorter t o
        → ((u : Text) → length (strip_loop [] f u) ≤ length u)
        → length (elim o as (λ _. Text) [ none ↦ [] | some v ↦ strip_loop [] f v ]) ≤ length t
    continued f t none h e = omega arith
    continued f t (some u) h e = omega (arith, e u)

pub length-strip : (s : Text) → length (strip s) ≤ length s
unfolding strip
length-strip s = length-strip_loop (suc (length s)) s

length-after_token :
    (stop : ℕ → Bool) (s : Text)
    → is_empty (token stop s) ≡ false
    → length (after_token stop s) < length s
unfolding token after_token
length-after_token stop [] h = cc
length-after_token stop (c ∷ s) h = ground (arith, length-after_token_le stop s)
  where
    length-after_token_le : (stop : ℕ → Bool) (u : Text) → length (after_token stop u) ≤ length u
    length-after_token_le stop [] = omega arith
    length-after_token_le stop (d ∷ u) = ground (arith, length-after_token_le stop u)

is_empty-map : (s : Text) → is_empty (map to_lower s) ≡ is_empty s
is_empty-map [] = refl
is_empty-map (c ∷ s) = refl

words_loop_enough :
    (a b : Bool) (f g : ℕ) (s : Text)
    → length s < f
    → length s < g
    → words_loop a f s ≡ words_loop b g s
unfolding words_loop
words_loop_enough a b zero g s h k = absurd (omega arith)
words_loop_enough a b (suc f) zero s h k = absurd (omega arith)
words_loop_enough a b (suc f) (suc g) s h k =
    let t = strip s in
    let u = after_token ends_keyword t in
    ground (
      arith,
      is_empty-map (token ends_keyword t),
      length-after_token ends_keyword t,
      length-strip s,
      words_loop_enough a b f g u,
    )

next_eq :
    (a b : Bool) (f g : ℕ) (target s : Text) (o : Option Text)
    → IsShorter s o
    → ((u : Text) → length u < length s → list_loop a f target u ≡ list_loop b g target u)
    → elim o as (λ _. Bool) [ none ↦ false | some t ↦ list_loop a f target (strip t) ]
      ≡ elim o as (λ _. Bool) [ none ↦ false | some t ↦ list_loop b g target (strip t) ]
next_eq a b f g target s none h e = refl
next_eq a b f g target s (some t) h e = e (strip t) (omega (arith, length-strip t))

rest-shorter : (s : Text) → is_empty s ≡ false → length (rest s) < length s
rest-shorter [] h = cc
rest-shorter (c ∷ s) h = omega arith

list_loop_enough :
    (a b : Bool) (f g : ℕ) (target s : Text)
    → length s < f
    → length s < g
    → list_loop a f target s ≡ list_loop b g target s
unfolding list_loop
list_loop_enough a b zero g target s h k = absurd (omega arith)
list_loop_enough a b (suc f) zero target s h k = absurd (omega arith)
list_loop_enough a b (suc f) (suc g) target s h k = ground (
  arith,
  rest-shorter s,
  length-strip (rest s),
  list_loop_enough a b f g target (strip (rest s)),
  next_eq a b f g target s (after 44 s) (after-IsShorter 44 s)
      (λ u m. list_loop_enough a b f g target u (omega arith) (omega arith)),
)

-- The fuel never runs out. With any fuel above the length of the text, and whatever a loop returns
-- when its fuel is used up, each loop of the scanners gives what it gives in the model: the text
-- without its leading comments, whether the bare words hold ANALYZE, and whether a list of options
-- holds a target.
pub scanners_terminate :
    (out : Text) (verdict : Bool) (f : ℕ) (target s : Text)
    → length s < f
    → (strip_loop out f s ≡ strip s)
      × (words_loop verdict f s ≡ words_have_analyze s)
      × (list_loop verdict f target (strip s) ≡ token_list_contains s target)
unfolding strip words_have_analyze token_list_contains
scanners_terminate out verdict f target s h = (
  strip_loop_enough out [] f (suc (length s)) s h (omega arith),
  words_loop_enough verdict false f (suc (length s)) s h (omega arith),
  unfold strip in
      list_loop_enough verdict false f (suc (length s)) target (strip s)
        (omega (arith, length-strip s)) (omega (arith, length-strip s)),
)

-- What the comment loop makes of the text behind a comment.
abbrev pub skipped : Option Text → Text
skipped none = []
skipped (some s) = strip s

-- The equation of the comment loop, with the loop itself behind each comment.
pub strip_unroll :
    (s : Text)
    → strip s ≡ (
        if starts_with_pair 45 45 (trim_left s)
        then skipped (after 10 (trim_left s))
        else if starts_with_pair 47 42 (trim_left s)
        then skipped (after_pair 42 47 (trim_left s))
        else trim_left s)
unfolding strip strip_loop
strip_unroll s =
    let t = trim_left s in
    cc (
      skipped_eq (length s) t (after 10 t) (after-IsShorter 10 t) (length-trim_left s),
      skipped_eq (length s) t (after_pair 42 47 t) (after_pair-IsShorter 42 47 t)
          (length-trim_left s),
    )
  where
    skipped_eq :
        (f : ℕ) (t : Text) (o : Option Text)
        → IsShorter t o
        → length t ≤ f
        → elim o [ none ↦ [] | some u ↦ strip_loop [] f u ] ≡ skipped o
    skipped_eq f t none h e = refl
    skipped_eq f t (some u) h e =
        strip_loop_enough [] [] f (suc (length u)) u (omega arith) (omega arith)
