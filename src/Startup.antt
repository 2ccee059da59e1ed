-- ===== src/Startup.antt =====
-- The decisions of `main` in cmd/main.go between the first probes and the listeners. The topology is
-- that at which each decision reads it; a panic of the logger is an abort.
use grunyas.Prelude.{
  ℕ, ◌≡◌, ◌≢◌, sym, ◌∙◌, Bool-cases, ◌↔◌, ◌⊎◌, inl, inr, refl, String, Bool, true, false, ◌&&◌, not,
  Option, none, some, List, [], ◌∷◌, ltb, if◌then◌else◌, ◌==◌, Option-cases,
}
use grunyas.Prelude.Int.{ℤ, pos, negsuc}
use grunyas.Topology.Types.{Err, NodeView}
use grunyas.Topology.State.{Topology}
use grunyas.Topology.View.{nodes}
use grunyas.Config.Problems.{is_none}

-- The bound on the wait for the first probes, in seconds.
unfoldable pub probe_timeout : ℤ → ℕ
probe_timeout (pos n) = if n == 0 then 10 else n
probe_timeout (negsuc n) = 10

abbrev pub is_reachable : NodeView → Bool
is_reachable nv = not (is_none nv.last_probe_at) && is_none nv.last_probe_err

-- The loop that looks for a node that has answered.
unfoldable pub all_down : List NodeView → Bool
all_down [] = true
all_down (nv ∷ rest) = let others = all_down rest in if is_reachable nv then false else others

-- The nodes that are warned of.
unfoldable pub unreachable : List NodeView → List String
unreachable [] = []
unreachable (nv ∷ rest) =
    let others = unreachable rest in if is_none nv.last_probe_err then others else nv.id ∷ others

pub data Start : Type 0 where
  aborted_by : Err → Start
  all_unreachable : Start
  started : (warned : List String) → Start

abbrev pub mismatch_of : (configured : ℕ) → Option Err → Option Err
mismatch_of configured e = if ltb 1 configured then e else none

unfoldable pub start : (configured : ℕ) → (sys_id_err : Option Err) → List NodeView → Start
unfolding all_down unreachable
start configured sys_id_err views = elim (mismatch_of configured sys_id_err) [
  | some e ↦ aborted_by e
  | none ↦ if all_down views then all_unreachable else started (unreachable views)
]

-- The start over a topology of the configured nodes, read once for each decision.
unfoldable pub start_over : ℕ → (configured : ℕ) → (at_check at_views : Topology) → Start
unfolding start nodes
start_over now configured at_check at_views =
    start configured at_check.sys_id_err (nodes now at_views)

-- Some node has answered a probe, the last one without an error.
abbrev pub IsAnswered : List NodeView → Type 0
IsAnswered [] = ⊥
IsAnswered (nv ∷ rest) =
    (((at : ℕ) × (nv.last_probe_at ≡ some at)) × (nv.last_probe_err ≡ none)) ⊎ IsAnswered rest

abbrev IsReached : Option ℕ → Option Err → Type 0
IsReached at err = ((t : ℕ) × (at ≡ some t)) × (err ≡ none)

reached :
    (at : Option ℕ) (err : Option Err) → (not (is_none at) && is_none err ≡ true) ↔ IsReached at err
reached none err = (λ e. cc, λ ((t, p), q). cc)
reached (some t) none = (λ e. ((t, refl), refl), λ r. refl)
reached (some t) (some err) = (λ e. cc, λ (p, q). cc)

not_both : true ≢ false
not_both e = cc

all_down-IsAnswered : (views : List NodeView) → (all_down views ≡ false) ↔ IsAnswered views
unfolding all_down
all_down-IsAnswered [] = (λ e. cc, λ a. absurd a)
all_down-IsAnswered (nv ∷ rest) =
    let (to, from) = reached nv.last_probe_at nv.last_probe_err in
    let (later, back) = all_down-IsAnswered rest in
    elim (Bool-cases (is_reachable nv)) [
      | inl b ↦ (λ e. inl (to b), λ a. rw b refl)
      | inr b ↦ (
        λ e. inr (later (rw b at e)),
        λ a. rw b (elim a [ inl r ↦ absurd (not_both (sym (from r) ∙ b)) | inr r ↦ back r ]),
      )
    ]

-- The start goes on exactly when some node has answered its last probe and, with more than one node
-- configured, no node has reported a foreign system identifier.
pub start-IsAnswered :
    (configured : ℕ) (sys_id_err : Option Err) (views : List NodeView)
    → (start configured sys_id_err views ≡ started (unreachable views))
      ↔ ((mismatch_of configured sys_id_err ≡ none) × IsAnswered views)
unfolding start
start-IsAnswered configured sys_id_err views =
    let (to, from) = all_down-IsAnswered views in
    elim (Option-cases (mismatch_of configured sys_id_err)) [
      | inl n ↦
          rw (n, start)
            (elim (Bool-cases (all_down views)) [
              | inl d ↦ rw d (λ e. cc, λ (p, a). absurd (not_both (sym d ∙ from a)))
              | inr d ↦ rw d (λ e. (refl, to d), λ a. refl)
            ])
      | inr (err, n) ↦ rw (n, start) (λ e. cc, λ (p, a). cc)
    ]
