-- ===== src/Messaging/SessionState.antt =====
-- internal/server/messaging/session_state.go. `strings.Index` looks for the end of a comment from the
-- first byte of the comment, as in the classifier.
use Prim.Native.Nat.{zero, suc}
use grunyas.Prelude.{
  ℕ, Bool, true, false, none, some, List, [], ◌∷◌, map, length, is_nil, ◌==◌, if◌then◌else◌,
}
use grunyas.Classifier.Text.{Text, codes, to_lower, trim_left, after, after_pair, starts_with_pair}
use grunyas.Classifier.Truncate.{trim_right}
use grunyas.Session.Boundary.{has_prefix}

abbrev pub extend_piece : ℕ → List Text → List Text
extend_piece c [] = (c ∷ []) ∷ []
extend_piece c (p ∷ ps) = (c ∷ p) ∷ ps

-- strings.Split(s, sep) for a separator of one byte: never empty.
unfoldable pub split : ℕ → Text → List Text
split sep [] = [] ∷ []
split sep (c ∷ s) =
    let pieces = split sep s in if c == sep then [] ∷ pieces else extend_piece c pieces

-- strings.TrimSpace
unfoldable pub trim : Text → Text
unfolding trim_left trim_right
trim s = trim_left (trim_right s)

-- The loop of `stripLeadingComments`.
unfoldable pub leading_loop : ℕ → Text → Text
unfolding trim
leading_loop zero stmt = trim stmt
leading_loop (suc n) stmt =
    let trimmed = trim stmt in
    let after_line : Text = elim (after 10 trimmed) [ none ↦ [] | some s ↦ leading_loop n s ] in
    let after_block : Text = elim (after_pair b'*' b'/' trimmed) [
      | none ↦ []
      | some s ↦ leading_loop n s
    ] in
    if starts_with_pair 45 45 trimmed
    then after_line
    else if starts_with_pair 47 42 trimmed
    then after_block
    else trimmed

unfoldable pub strip_leading_comments : Text → Text
unfolding leading_loop
strip_leading_comments stmt = leading_loop (suc (length stmt)) stmt

-- What the loop makes of one piece of the batch.
unfoldable pub uses_state : Text → Bool
unfolding trim strip_leading_comments has_prefix
uses_state piece =
    let stmt = trim piece in
    if is_nil stmt
    then false
    else let normalized = map to_lower (strip_leading_comments stmt) in
      if has_prefix (codes "set ") normalized
      then (if has_prefix (codes "set local") normalized then false else true)
      else has_prefix (codes "prepare ") normalized

unfoldable pub any_uses_state : List Text → Bool
any_uses_state [] = false
any_uses_state (p ∷ ps) = if uses_state p then true else any_uses_state ps

unfoldable pub query_uses_session_state : Text → Bool
unfolding split any_uses_state
query_uses_session_state query = any_uses_state (split b';' query)
