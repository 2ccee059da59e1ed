-- ===== src/Admin/Labels.antt =====
-- What the collectors of internal/admin/admin.go count, and the labels that they read back.
use Prim.Native.Char.{Char, code}
use Prim.Native.String.{◌++◌ as ◌<>◌}
use text.Mathlib.TextLemmas.{nil-append, cons-append}
use grunyas.Prelude.{
  ℕ, ◌+◌, String, str_eq, eq_iff, Bool, true, false, ◌==◌, ◌≡◌, inl, inr, refl, ap, ◌∙◌, arith,
  some, List, [], ◌∷◌, length, keep, Bool-cases, Option-cases, if◌then◌else◌,
}
use grunyas.Prelude.Assoc.{Assoc, get, get-put}
use grunyas.Topology.Types.{Role, Liveness, role_string, liveness_string, NodeView}
use grunyas.Classifier.Statement.{Port}
use grunyas.Decisions.Events.{Event}
use grunyas.Routing.Pipeline.{port_label, counter_key}
use grunyas.Admin.Views.{same_role}
use grunyas.Admin.Collect.{
  cut, split_key, increment_count, by_role, by_live, no_roles, no_liveness, count_by,
}

abbrev pub has_colon : String → Bool
has_colon String.[] = false
has_colon (String.◌∷◌ c s) = if code c == b':' then true else has_colon s

abbrev colon : Char
colon = ":"

colon-append : (t : String) → ":" <> t ≡ String.◌∷◌ colon t
colon-append t = cons-append colon "" t ∙ ap (String.◌∷◌ colon) (nil-append t)

cut-append : (s t : String) → has_colon s ≡ false → cut (s <> (":" <> t)) ≡ some (s, t)
unfolding cut
cut-append String.[] t h = ap cut (nil-append (":" <> t) ∙ colon-append t)
cut-append (String.◌∷◌ c s) t h = elim (Bool-cases (code c == b':')) [
  | inl b ↦ cc
  | inr b ↦ ap cut (cons-append c s (":" <> t)) ∙ rw (b, cut-append s t (rw b at h)) refl
]

port_has_no_colon : (p : Port) → has_colon (port_label p) ≡ false
unfolding port_label
port_has_no_colon Port.write = refl
port_has_no_colon Port.read = refl
port_has_no_colon Port.compat = refl
port_has_no_colon (Port.other s) = refl

-- The collector reads the labels of a counter back: the port, the outcome and the reason, which may
-- hold colons, for an outcome without a colon.
pub split_key-counter_key :
    (e : Event)
    → has_colon e.outcome.kind ≡ false
    → split_key (counter_key e) ≡ some (port_label e.port, e.outcome.kind, e.outcome.reason)
unfolding split_key counter_key
split_key-counter_key e h =
    rw
      (
        cut-append (port_label e.port) (e.outcome.kind <> (":" <> e.outcome.reason))
            (port_has_no_colon e.port),
        cut-append e.outcome.kind e.outcome.reason h,
        split_key,
      )
      refl

get-increment_count :
    (k j : String) (n : ℕ) (m : Assoc ℕ)
    → get j m ≡ some n
    → get j (increment_count k m) ≡ some (if str_eq k j then n + 1 else n)
unfolding increment_count
get-increment_count k j n m e = elim (Option-cases (get k m)) [
  | inl z ↦
      rw (z, increment_count, get-put)
        (ground (arith, eq_iff k j, e, z, ap (λ x. get x m) {x = k} {y = j}))
  | inr (a, z) ↦
      rw (z, increment_count, get-put)
        (ground (arith, eq_iff k j, e, z, ap (λ x. get x m) {x = k} {y = j}))
]

get-count_by :
    (label : NodeView → String) (key : String) (nodes : List NodeView) (m : Assoc ℕ) (n : ℕ)
    → get key m ≡ some n
    → get key (count_by label nodes m)
      ≡ some (n + length (keep (λ nv. str_eq (label nv) key) nodes))
unfolding count_by
get-count_by label key [] m n e = e ∙ ap some (omega arith)
get-count_by label key (nv ∷ rest) m n e = elim (Bool-cases (str_eq (label nv) key)) [
  | inl b ↦
      get-count_by label key rest (increment_count (label nv) m) (n + 1)
        (get-increment_count (label nv) key n m e ∙ rw b refl)
      ∙ rw b (ap some (omega arith))
  | inr b ↦
      get-count_by label key rest (increment_count (label nv) m) n
        (get-increment_count (label nv) key n m e ∙ rw b refl)
      ∙ rw b refl
]

role_key : (r s : Role) → str_eq (role_string r) (role_string s) ≡ same_role r s
unfolding role_string
role_key Role.unknown Role.unknown = refl
role_key Role.unknown Role.primary = refl
role_key Role.unknown Role.replica = refl
role_key Role.primary Role.unknown = refl
role_key Role.primary Role.primary = refl
role_key Role.primary Role.replica = refl
role_key Role.replica Role.unknown = refl
role_key Role.replica Role.primary = refl
role_key Role.replica Role.replica = refl

no_roles_zero : (r : Role) → get (role_string r) no_roles ≡ some 0
unfolding role_string get
no_roles_zero Role.unknown = refl
no_roles_zero Role.primary = refl
no_roles_zero Role.replica = refl

no_liveness_zero : (l : Liveness) → get (liveness_string l) no_liveness ≡ some 0
unfolding liveness_string get
no_liveness_zero Liveness.unknown = refl
no_liveness_zero Liveness.up = refl
no_liveness_zero Liveness.degraded = refl
no_liveness_zero Liveness.down = refl

abbrev pub same_liveness : Liveness → Liveness → Bool
same_liveness Liveness.unknown Liveness.unknown = true
same_liveness Liveness.up Liveness.up = true
same_liveness Liveness.degraded Liveness.degraded = true
same_liveness Liveness.down Liveness.down = true
same_liveness _ _ = false

same_liveness_key :
    (l k : Liveness) → str_eq (liveness_string l) (liveness_string k) ≡ same_liveness l k
unfolding liveness_string
same_liveness_key Liveness.unknown Liveness.unknown = refl
same_liveness_key Liveness.unknown Liveness.up = refl
same_liveness_key Liveness.unknown Liveness.degraded = refl
same_liveness_key Liveness.unknown Liveness.down = refl
same_liveness_key Liveness.up Liveness.unknown = refl
same_liveness_key Liveness.up Liveness.up = refl
same_liveness_key Liveness.up Liveness.degraded = refl
same_liveness_key Liveness.up Liveness.down = refl
same_liveness_key Liveness.degraded Liveness.unknown = refl
same_liveness_key Liveness.degraded Liveness.up = refl
same_liveness_key Liveness.degraded Liveness.degraded = refl
same_liveness_key Liveness.degraded Liveness.down = refl
same_liveness_key Liveness.down Liveness.unknown = refl
same_liveness_key Liveness.down Liveness.up = refl
same_liveness_key Liveness.down Liveness.degraded = refl
same_liveness_key Liveness.down Liveness.down = refl

keep_ext :
    (p q : NodeView → Bool) (nodes : List NodeView)
    → ((nv : NodeView) → p nv ≡ q nv)
    → keep p nodes ≡ keep q nodes
keep_ext p q [] h = refl
keep_ext p q (nv ∷ rest) h = rw (h nv, keep_ext p q rest h) refl

-- The collector reports for every role the number of nodes that are shown with it, and for every
-- liveness likewise.
pub counts_of_nodes :
    (nodes : List NodeView)
    → ((r : Role)
        → get (role_string r) (by_role nodes)
          ≡ some (length (keep (λ nv. same_role nv.observed_role r) nodes)))
      × ((l : Liveness)
          → get (liveness_string l) (by_live nodes)
            ≡ some (length (keep (λ nv. same_liveness nv.liveness l) nodes)))
unfolding by_role by_live
counts_of_nodes nodes = (
  λ r.
      get-count_by (λ nv. role_string nv.observed_role) (role_string r) nodes no_roles 0
        (no_roles_zero r)
      ∙ (ap some (omega arith)
          ∙ ap (λ xs. some (length xs)) (keep_ext _ _ nodes (λ nv. role_key nv.observed_role r))),
  λ l.
      get-count_by (λ nv. liveness_string nv.liveness) (liveness_string l) nodes no_liveness 0
        (no_liveness_zero l)
      ∙ (ap some (omega arith)
          ∙ ap (λ xs. some (length xs))
              (keep_ext _ _ nodes (λ nv. same_liveness_key nv.liveness l))),
)
