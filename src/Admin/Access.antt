-- ===== src/Admin/Access.antt =====
-- Who may call the admin API of internal/admin/admin.go: `New` for the hashes of the tokens,
-- `extractBearerToken`, `authMiddleware`, and the routes of `Run`. The hexadecimal SHA-256 of a token
-- is the parameter `digest`. A request is the handler that its path and method match, with its
-- Authorization header; the matching itself, and the answer to a path that no route has, are the
-- router's.
use grunyas.Prelude.{
  ℕ, zero, suc, String, str_eq, Bool, not, ◌||◌, none, some, [], ◌∷◌, map, ltb, length,
  if◌then◌else◌,
}
use grunyas.Messaging.SessionState.{trim}
use grunyas.Prelude.Assoc.{Assoc, get, put}
use grunyas.Classifier.Text.{Text, codes, to_lower, text_eq, is_empty, take}

-- s[n:]
unfoldable pub drop : ℕ → Text → Text
drop zero s = s
drop (suc n) [] = []
drop (suc n) (c ∷ s) = drop n s

-- strings.EqualFold
abbrev pub equal_fold : Text → Text → Bool
equal_fold s t = text_eq (map to_lower s) (map to_lower t)

unfoldable pub extract_bearer_token : Text → Text
unfolding trim drop
extract_bearer_token h =
    if ltb (length h) 7 || not (equal_fold (take 7 h) (codes "Bearer "))
    then []
    else trim (drop 7 h)

-- The operations that a route leads to.
pub data Handler : Type 0 where
  healthz metrics state nodes node_by_id pools config policies policy_by_name decisions : Handler

pub data HttpReply : Type 0 where
  handled : Handler → HttpReply
  json_error : (status : ℕ) → (code message : String) → HttpReply
  no_route : HttpReply

module _ (digest : Text → String) where
  -- The loop of `New` over the tokens of the configuration and their roles.
  unfoldable pub add_tokens : Assoc String → Assoc String → Assoc String
  add_tokens [] m = m
  add_tokens ((token, role) ∷ rest) m =
      add_tokens rest (if str_eq token "" then m else put (digest (codes token)) role m)

  unfoldable pub token_hashes : Assoc String → Assoc String
  unfolding add_tokens
  token_hashes tokens = add_tokens tokens []

  unfoldable pub auth_middleware : Assoc String → Text → HttpReply → HttpReply
  auth_middleware hashes header next =
      let token = extract_bearer_token header in
      if is_empty token
      then json_error 401 "unauthorized" "missing authorization header"
      else elim (get (digest token) hashes) [
        | none ↦ json_error 401 "unauthorized" "invalid token"
        | some role ↦
            if not (str_eq role "admin")
            then json_error 403 "forbidden" "insufficient permissions"
            else next
      ]

  -- The routes of the admin listener.
  unfoldable pub admin_mux : (auth_required : Bool) → Assoc String → Text → Handler → HttpReply
  unfolding auth_middleware
  admin_mux auth_required hashes header healthz = handled healthz
  admin_mux auth_required hashes header metrics =
      if auth_required then auth_middleware hashes header (handled metrics) else handled metrics
  admin_mux auth_required hashes header h = auth_middleware hashes header (handled h)

  -- The routes of the listener for metrics.
  unfoldable pub metrics_mux : (auth_required : Bool) → Assoc String → Text → Handler → HttpReply
  unfolding auth_middleware
  metrics_mux auth_required hashes header metrics =
      if auth_required then auth_middleware hashes header (handled metrics) else handled metrics
  metrics_mux auth_required hashes header healthz =
      if auth_required then auth_middleware hashes header (handled healthz) else handled healthz
  metrics_mux auth_required hashes header h = no_route
