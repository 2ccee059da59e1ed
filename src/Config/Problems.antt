-- ===== src/Config/Problems.antt =====
-- What `Validate` of config/config.go reports, and its tests of single values. A message is a problem of
-- the server, of a port by its name, or of a node or a policy by its index. A tuple host:port is the
-- pair of its parts, which its text tells apart.
use grunyas.Prelude.{
  ℕ, String, str_eq, Bool, true, false, not, ◌&&◌, ◌||◌, Option, none, some, List, [], ◌∷◌, leb,
  ◌==◌, if◌then◌else◌,
}
use grunyas.Prelude.Int.{ℤ, pos, ltb_ℤ}
use grunyas.Classifier.Text.{Text}
use grunyas.Config.Types.{NodeConfig}

pub data Problem : Type 0 where
  general : String → Problem
  of_port of_token : String → String → Problem
  of_node of_policy : ℕ → String → Problem

abbrev pub check : Bool → Problem → List Problem
check b p = if b then p ∷ [] else []

abbrev pub is_negative : ℤ → Bool
is_negative n = ltb_ℤ n (pos 0)

abbrev pub is_blank : String → Bool
is_blank s = str_eq s ""

abbrev pub is_none {ℓ} : {A : Type ℓ} → Option A → Bool
is_none none = true
is_none (some a) = false

-- A key that was there before, in the sets of the source.
abbrev pub seen {ℓ} : {A : Type ℓ} → (A → A → Bool) → A → List A → Bool
seen test a [] = false
seen test a (b ∷ bs) = test a b || seen test a bs

abbrev pub int_eq : ℤ → ℤ → Bool
int_eq a b = not (ltb_ℤ a b) && not (ltb_ℤ b a)

abbrev pub Endpoint : Type 0
Endpoint = String × ℤ

abbrev pub endpoint : NodeConfig → Endpoint
endpoint n = (n.host, n.port)

abbrev pub same_endpoint : Endpoint → Endpoint → Bool
same_endpoint (h, p) (k, q) = str_eq h k && int_eq p q

-- The characters of an identifier.
abbrev pub is_url_safe : Text → Bool
is_url_safe [] = true
is_url_safe (c ∷ s) =
    ((leb b'a' c && leb c b'z') || ((leb b'0' c && leb c b'9') || c == b'-')) && is_url_safe s
