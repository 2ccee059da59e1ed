-- ===== src/Classifier/Digest.antt =====
-- What `TruncateSQL` of internal/classifier/classifier.go leaves of a text for an event.
use Prim.Native.Nat.{zero, suc}
use grunyas.Prelude.{
  ℕ, ◌≤◌, ◌≡◌, refl, Bool, true, false, not, ◌||◌, List, [], ◌∷◌, length, arith, ltb, ◌==◌, All,
  All-append, if-holds,
}
use grunyas.Classifier.Text.{Text, is_space, take, trim_left}
use grunyas.Classifier.Truncate.{
  truncate_sql, fields, join, extend_field, starts_field, newlines_to_spaces, trim_right,
}

-- A byte that is no space, or the space itself.
abbrev pub is_plain : ℕ → Bool
is_plain c = not (is_space c) || c == 32

abbrev Plain : Text → Type 0
Plain = All (λ c. is_plain c ≡ true)

plain : (c : ℕ) → is_space c ≡ false → is_plain c ≡ true
plain c h = ground (arith, h)

extend_field-Plain :
    (c : ℕ) (fs : List Text) → is_plain c ≡ true → All Plain fs → All Plain (extend_field c fs)
extend_field-Plain c [] p h = ((p, tt), tt)
extend_field-Plain c (f ∷ fs) p (q, h) = ((p, q), h)

fields-Plain : (s : Text) → All Plain (fields s)
unfolding fields
fields-Plain [] = tt
fields-Plain (c ∷ s) =
    let h = fields-Plain s in
    if-holds (All Plain) (is_space c) (λ b. h)
      λ b.
        if-holds (All Plain) (starts_field s) (λ f. extend_field-Plain c (fields s) (plain c b) h)
          (λ f. ((plain c b, tt), h))

join-Plain : (fs : List Text) → All Plain fs → Plain (join fs)
unfolding join
join-Plain [] h = tt
join-Plain (f ∷ []) (p, h) = p
join-Plain (f ∷ g ∷ fs) (p, h) =
    All-append (λ c. is_plain c ≡ true) f (32 ∷ join (g ∷ fs)) p (refl, join-Plain (g ∷ fs) h)

take-Plain : (n : ℕ) (s : Text) → Plain s → Plain (take n s)
take-Plain zero [] h = tt
take-Plain zero (c ∷ s) h = tt
take-Plain (suc n) [] h = tt
take-Plain (suc n) (c ∷ s) (p, h) = (p, take-Plain n s h)

length-take : (n : ℕ) (s : Text) → length (take n s) ≤ n
length-take zero [] = omega arith
length-take zero (c ∷ s) = omega arith
length-take (suc n) [] = omega arith
length-take (suc n) (c ∷ s) = omega (arith, length-take n s)

-- The text of an event is at most as long as the limit, and no byte of it is a line break, a tab or
-- another space than the blank.
pub truncate_sql_bounded :
    (sql : Text) (n : ℕ)
    → (length (truncate_sql sql n) ≤ n) × All (λ c. is_plain c ≡ true) (truncate_sql sql n)
unfolding truncate_sql
truncate_sql_bounded sql n =
    let parts = fields (newlines_to_spaces (trim_left (trim_right sql))) in
    let p = join-Plain parts (fields-Plain (newlines_to_spaces (trim_left (trim_right sql)))) in
    (
      ground (arith, length-take n (join parts)),
      if-holds Plain (ltb n (length (join parts))) (λ l. take-Plain n (join parts) p) (λ l. p),
    )
