-- ===== src/Messaging/Batches.antt =====
-- `queryUsesSessionState` of internal/server/messaging/session_state.go on batches of statements.
use grunyas.Session.Boundary.{has_prefix}
use grunyas.Classifier.Truncate.{trim_right}
use grunyas.Prelude.{
  is_nil, ◌∙◌, Bool, true, false, none, map, subst, sym, ◌↔◌, if◌then◌else◌, ℕ, ◌≡◌, refl, ◌||◌,
  List, [], ◌∷◌, ◌++◌, arith, ◌==◌, Bool-cases, inl, inr,
}
use grunyas.Classifier.Text.{Text, trim_left, codes, to_lower, after}
use grunyas.Messaging.Fuel.{IsBare, strip_leading_comments-IsBare}
use grunyas.Messaging.SessionState.{
  leading_loop, uses_state, trim, strip_leading_comments, split, extend_piece, any_uses_state,
  query_uses_session_state,
}

any_uses_state-append :
    (ps qs : List Text) → any_uses_state (ps ++ qs) ≡ (any_uses_state ps || any_uses_state qs)
unfolding any_uses_state
any_uses_state-append [] qs = refl
any_uses_state-append (p ∷ ps) qs = ground (arith, any_uses_state-append ps qs)

extend_piece-append :
    (c : ℕ) (p : Text) (ps qs : List Text)
    → extend_piece c ((p ∷ ps) ++ qs) ≡ extend_piece c (p ∷ ps) ++ qs
extend_piece-append c p ps qs = refl

-- A split is never empty.
split_cons : (sep : ℕ) (s : Text) → (p : Text) × (ps : List Text) × (split sep s ≡ p ∷ ps)
unfolding split
split_cons sep [] = ([], [], refl)
split_cons sep (c ∷ s) =
    let (p, ps, e) = split_cons sep s in
    elim (Bool-cases (c == sep)) [
      | inl b ↦ ([], split sep s, rw b refl)
      | inr b ↦ (c ∷ p, ps, rw (b, e) refl)
    ]

pub split-append : (sep : ℕ) (s t : Text) → split sep (s ++ sep ∷ t) ≡ split sep s ++ split sep t
unfolding split
split-append sep [] t = ground arith
split-append sep (c ∷ s) t =
    let (p, ps, e) = split_cons sep s in ground (arith, split-append sep s t, e)

-- A text is the statement of a session: `set `, but with no `local` behind it, or `prepare `.
pub data IsSessionText : Text → Type 0 where
  set :
      (rest : Text) → has_prefix (codes "local") rest ≡ false → IsSessionText (codes "set " ++ rest)
  prepare : (rest : Text) → IsSessionText (codes "prepare " ++ rest)

-- What the last tests of the loop say of the text in lower case.
abbrev is_session_text : Text → Bool
is_session_text t =
    if has_prefix (codes "set ") t
    then (if has_prefix (codes "set local") t then false else true)
    else has_prefix (codes "prepare ") t

has_prefix-split : (p s : Text) → has_prefix p s ≡ true → (rest : Text) × (s ≡ p ++ rest)
unfolding has_prefix
has_prefix-split [] s h = (s, refl)
has_prefix-split (c ∷ p) [] h = absurd (ground (arith, h))
has_prefix-split (c ∷ p) (d ∷ s) h =
    let same : d ≡ c = ground (arith, h) in
    let (rest, e) = has_prefix-split p s (ground (arith, h)) in (rest, cc (same, e))

is_session_text-IsSessionText : (t : Text) → is_session_text t ≡ true → IsSessionText t
unfolding has_prefix
is_session_text-IsSessionText t h = elim (Bool-cases (has_prefix (codes "set ") t)) [
  | inl b ↦
      let (rest, e) = has_prefix-split (codes "set ") t b in
      subst IsSessionText (sym e)
        (set rest (ground (arith, subst (λ u. is_session_text u ≡ true) e h)))
  | inr b ↦
      let (rest, e) = has_prefix-split (codes "prepare ") t (ground (arith, h, b)) in
      subst IsSessionText (sym e) (prepare rest)
]

IsSessionText-is_session_text : {t : Text} → IsSessionText t → is_session_text t ≡ true
unfolding has_prefix
IsSessionText-is_session_text (set rest h) = ground (arith, h)
IsSessionText-is_session_text (prepare rest) = refl

strip_leading_comments-nil : strip_leading_comments [] ≡ []
unfolding strip_leading_comments leading_loop trim trim_left trim_right
strip_leading_comments-nil = refl

-- The loop passes over an empty piece, which no test would take either.
nil_passes :
    (t : Text)
    → (if is_nil t then false else is_session_text (map to_lower (strip_leading_comments t)))
      ≡ is_session_text (map to_lower (strip_leading_comments t))
unfolding has_prefix
nil_passes [] = rw strip_leading_comments-nil refl
nil_passes (c ∷ t) = refl

uses_state-is_session_text :
    (p : Text) → uses_state p ≡ is_session_text (map to_lower (strip_leading_comments (trim p)))
unfolding uses_state
uses_state-is_session_text p = nil_passes (trim p)

split_one : (sep : ℕ) (p : Text) → after sep p ≡ none → split sep p ≡ p ∷ []
unfolding split after
split_one sep [] h = refl
split_one sep (c ∷ p) h = elim (Bool-cases (c == sep)) [
  | inl b ↦ absurd (ground (arith, b, h))
  | inr b ↦ ground (arith, b, h, split_one sep p)
]

part :
    (p : Text)
    → after b';' p ≡ none
    → query_uses_session_state p ≡ is_session_text (map to_lower (strip_leading_comments (trim p)))
unfolding query_uses_session_state any_uses_state
part p h = rw (split_one b';' p h, sym (uses_state-is_session_text p)) (ground arith)

-- A batch needs a session of its own exactly when one of its parts does, wherever a semicolon parts
-- it; and a part without a semicolon does exactly when, behind the space and the comments in front
-- and in lower case, it is `set ` with no `local` right behind it, or `prepare `; what is
-- tested then has no comment in front.
pub batch-uses_state :
    (s t p : Text)
    → after b';' p ≡ none
    → (query_uses_session_state (s ++ b';' ∷ t)
        ≡ (query_uses_session_state s || query_uses_session_state t))
      × ((query_uses_session_state p ≡ true)
          ↔ IsSessionText (map to_lower (strip_leading_comments (trim p))))
      × IsBare (strip_leading_comments (trim p))
unfolding query_uses_session_state any_uses_state
batch-uses_state s t p h = (
  rw (split-append b';' s t) (any_uses_state-append (split b';' s) (split b';' t)),
  (
    λ e. is_session_text-IsSessionText _ (sym (part p h) ∙ e),
    λ x. part p h ∙ IsSessionText-is_session_text x,
  ),
  strip_leading_comments-IsBare (trim p),
)
