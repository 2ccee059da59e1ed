-- ===== src/Messaging/Fuel.antt =====
-- The loop of internal/server/messaging/session_state.go ends: each comment that it takes off shortens
-- the text.
use Prim.Native.Nat.{zero, suc}
use grunyas.Prelude.{
  false, if-holds, ℕ, ◌≤◌, ◌<◌, ◌≡◌, refl, Option, none, some, [], ◌∷◌, length, arith,
}
use grunyas.Classifier.Text.{Text, starts_with_pair, after, after_pair}
use grunyas.Classifier.Truncate.{trim_right}
use grunyas.Classifier.Fuel.{length-trim_left, IsShorter, after-IsShorter, after_pair-IsShorter}
use grunyas.Messaging.SessionState.{trim, leading_loop, strip_leading_comments}

length-trim_right : (s : Text) → length (trim_right s) ≤ length s
unfolding trim_right
length-trim_right [] = omega arith
length-trim_right (c ∷ s) = ground (arith, length-trim_right s)

length-trim : (s : Text) → length (trim s) ≤ length s
unfolding trim
length-trim s = omega (arith, length-trim_left (trim_right s), length-trim_right s)

-- Two runs of the loop agree behind a comment if they agree on all shorter texts.
leading_equal :
    (f g : ℕ) (t : Text) (o : Option Text)
    → IsShorter t o
    → ((u : Text) → length u < length t → leading_loop f u ≡ leading_loop g u)
    → elim o [ none ↦ [] | some s ↦ leading_loop f s ]
      ≡ elim o [ none ↦ [] | some s ↦ leading_loop g s ]
leading_equal f g t none h e = refl
leading_equal f g t (some s) h e = e s h

leading_loop_enough :
    (f g : ℕ) (s : Text) → length s < f → length s < g → leading_loop f s ≡ leading_loop g s
unfolding leading_loop
leading_loop_enough zero g s h k = absurd (omega arith)
leading_loop_enough (suc f) zero s h k = absurd (omega arith)
leading_loop_enough (suc f) (suc g) s h k =
    let t = trim s in
    let ih : (u : Text) → length u < length t → leading_loop f u ≡ leading_loop g u = λ u m.
      let short = length-trim s in
      leading_loop_enough f g u (omega (arith, short)) (omega (arith, short)) in
    cc (
      leading_equal f g t (after 10 t) (after-IsShorter 10 t) ih,
      leading_equal f g t (after_pair 42 47 t) (after_pair-IsShorter 42 47 t) ih,
    )

-- The loop that takes the comments off a statement gives the same result with any fuel above the length
-- of the text.
pub leading_loop_terminates :
    (f : ℕ) (s : Text) → length s < f → leading_loop f s ≡ strip_leading_comments s
unfolding strip_leading_comments
leading_loop_terminates f s h = leading_loop_enough f (suc (length s)) s h (omega arith)

-- No comment stands in front.
abbrev pub IsBare : Text → Type 0
IsBare t = (starts_with_pair 45 45 t ≡ false) × (starts_with_pair 47 42 t ≡ false)

behind-IsBare :
    (f : ℕ) (t : Text) (o : Option Text)
    → IsShorter t o
    → ((u : Text) → length u < length t → IsBare (leading_loop f u))
    → IsBare (elim o as (λ _. Text) [ none ↦ [] | some s ↦ leading_loop f s ])
behind-IsBare f t none h b = (refl, refl)
behind-IsBare f t (some u) h b = b u h

leading_loop-IsBare : (f : ℕ) (s : Text) → length s < f → IsBare (leading_loop f s)
unfolding leading_loop
leading_loop-IsBare zero s h = absurd (omega arith)
leading_loop-IsBare (suc f) s h =
    let t = trim s in
    let ih : (u : Text) → length u < length t → IsBare (leading_loop f u) =
      λ u m. leading_loop-IsBare f u (omega (arith, length-trim s)) in
    if-holds IsBare (starts_with_pair 45 45 t)
      (λ l. behind-IsBare f t (after 10 t) (after-IsShorter 10 t) ih)
      λ l.
        if-holds IsBare (starts_with_pair 47 42 t)
          (λ b. behind-IsBare f t (after_pair 42 47 t) (after_pair-IsShorter 42 47 t) ih)
          (λ b. (l, b))

pub strip_leading_comments-IsBare : (s : Text) → IsBare (strip_leading_comments s)
unfolding strip_leading_comments
strip_leading_comments-IsBare s = leading_loop-IsBare (suc (length s)) s (omega arith)
