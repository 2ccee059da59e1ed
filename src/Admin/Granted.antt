-- ===== src/Admin/Granted.antt =====
-- Who reaches the handlers of internal/admin/admin.go.
use grunyas.Prelude.{
  ℕ, String, str_eq, eq_iff, ◌≡◌, ◌≢◌, ◌↔◌, ◌⊎◌, inl, inr, refl, sym, ap, ◌∙◌, arith, Bool, true,
  false, some, [], ◌∷◌, Bool-cases, Option-cases, subst,
}
use grunyas.Prelude.Assoc.{Assoc, get, put, get-put, Every}
use grunyas.Classifier.Text.{Text, codes, is_empty}
use grunyas.Admin.Access.{
  Handler, state, nodes, node_by_id, pools, config, policies, policy_by_name, decisions, handled,
  healthz, metrics, extract_bearer_token, add_tokens, token_hashes, auth_middleware, admin_mux,
  json_error,
}

-- A token of the configuration that is not empty, with its role.
abbrev pub Keyed : Text → String → Assoc String → Type 0
Keyed t role [] = ⊥
Keyed t role ((k, v) ∷ rest) = ((k ≢ "") × (codes k ≡ t) × (v ≡ role)) ⊎ Keyed t role rest

-- No text stands twice.
abbrev pub IsDistinct : Assoc String → Type 0
IsDistinct [] = Unit
IsDistinct ((k, v) ∷ rest) = Every (λ j w. codes j ≢ codes k) rest × IsDistinct rest

-- What needs no token.
abbrev pub IsOpen : Bool → Handler → Type 0
IsOpen auth_required healthz = Unit
IsOpen auth_required metrics = auth_required ≡ false
IsOpen auth_required h = ⊥

abbrev pub IsInjective : (Text → String) → Type 0
IsInjective digest = (s t : Text) → digest s ≡ digest t → s ≡ t

Keyed-is_empty :
    (t : Text) (role : String) (tokens : Assoc String) → Keyed t role tokens → is_empty t ≡ false
Keyed-is_empty t role [] k = absurd k
Keyed-is_empty t role ((k, v) ∷ rest) (inr h) = Keyed-is_empty t role rest h
Keyed-is_empty t role ((String.[], v) ∷ rest) (inl (n, c, r)) = absurd (n refl)
Keyed-is_empty t role ((String.◌∷◌ a k, v) ∷ rest) (inl (n, c, r)) = ap is_empty (sym c)

error_is_not_handled :
    (status : ℕ) (code message : String) (h : Handler) → json_error status code message ≢ handled h
error_is_not_handled status code message h e = cc

get_nothing : (k : String) → get {V = String} k [] ≢ some "admin"
unfolding get
get_nothing k e = cc

auth_passed :
    (digest : Text → String) (hashes : Assoc String) (header : Text) (h : Handler)
    → auth_middleware digest hashes header (handled h) ≡ handled h
    → get (digest (extract_bearer_token header)) hashes ≡ some "admin"
unfolding auth_middleware
auth_passed digest hashes header h e = elim (Bool-cases (is_empty (extract_bearer_token header))) [
  | inl b ↦ absurd (error_is_not_handled _ _ _ h (rw b at e))
  | inr b ↦ elim (Option-cases (get (digest (extract_bearer_token header)) hashes)) [
    | inl n ↦ absurd (error_is_not_handled _ _ _ h (rw (b, n) at e))
    | inr (role, g) ↦ elim (Bool-cases (str_eq role "admin")) [
      | inl a ↦ g ∙ ap some ((eq_iff role "admin").0 a)
      | inr a ↦ absurd (error_is_not_handled _ _ _ h (rw (b, g, a) at e))
    ]
  ]
]

module _ (digest : Text → String) (injective : IsInjective digest) where
  get-put-digest :
      (s t : Text) (role : String) (m : Assoc String)
      → ((s ≡ t) × (get (digest t) (put (digest s) role m) ≡ some role))
        ⊎ ((s ≢ t) × (get (digest t) (put (digest s) role m) ≡ get (digest t) m))
  get-put-digest s t role m = elim (Bool-cases (str_eq (digest s) (digest t))) [
    | inl e ↦ inl (injective s t ((eq_iff (digest s) (digest t)).0 e), rw (get-put, e) refl)
    | inr e ↦
        inr
          (λ p. ground (arith, e, eq_iff (digest s) (digest t), ap digest p), rw (get-put, e) refl)
  ]

  get-add_tokens_sound :
      (t : Text) (role : String) (tokens m : Assoc String)
      → get (digest t) (add_tokens digest tokens m) ≡ some role
      → Keyed t role tokens ⊎ (get (digest t) m ≡ some role)
  unfolding add_tokens
  get-add_tokens_sound t role [] m e = inr e
  get-add_tokens_sound t role ((k, v) ∷ rest) m e = elim (Bool-cases (str_eq k "")) [
    | inl b ↦ elim (get-add_tokens_sound t role rest m (rw b at e)) [
      | inl h ↦ inl (inr h)
      | inr h ↦ inr h
    ]
    | inr b ↦ elim (get-add_tokens_sound t role rest (put (digest (codes k)) v m) (rw b at e)) [
      | inl h ↦ inl (inr h)
      | inr h ↦ elim (get-put-digest (codes k) t v m) [
        | inl (p, q) ↦ inl (inl (λ c. ground (arith, b, c, eq_iff k ""), p, ground (arith, q, h)))
        | inr (p, q) ↦ inr (sym q ∙ h)
      ]
    ]
  ]

  get-add_tokens_absent :
      (t : Text) (tokens m : Assoc String)
      → Every (λ j w. codes j ≢ t) tokens
      → get (digest t) (add_tokens digest tokens m) ≡ get (digest t) m
  unfolding add_tokens
  get-add_tokens_absent t [] m h = refl
  get-add_tokens_absent t ((k, v) ∷ rest) m (n, h) = elim (Bool-cases (str_eq k "")) [
    | inl b ↦ rw b (get-add_tokens_absent t rest m h)
    | inr b ↦ elim (get-put-digest (codes k) t v m) [
      | inl (p, q) ↦ absurd (n p)
      | inr (p, q) ↦ rw b (get-add_tokens_absent t rest (put (digest (codes k)) v m) h ∙ q)
    ]
  ]

  get-add_tokens_complete :
      (t : Text) (role : String) (tokens m : Assoc String)
      → IsDistinct tokens
      → Keyed t role tokens
      → get (digest t) (add_tokens digest tokens m) ≡ some role
  unfolding add_tokens
  get-add_tokens_complete t role [] m d h = absurd h
  get-add_tokens_complete t role ((k, v) ∷ rest) m (a, d) (inr h) =
      get-add_tokens_complete t role rest _ d h
  get-add_tokens_complete t role ((k, v) ∷ rest) m (a, d) (inl (n, c, r)) =
      let b : str_eq k "" ≡ false = ground (arith, n, eq_iff k "") in
      let others : Every (λ j w. codes j ≢ t) rest =
        subst (λ x. Every (λ j w. codes j ≢ x) rest) c a in
      rw b (
        get-add_tokens_absent t rest (put (digest (codes k)) v m) others
        ∙ elim (get-put-digest (codes k) t v m) [
          | inl (p, q) ↦ q ∙ ap some r
          | inr (p, q) ↦ absurd (p c)
        ])

  -- A request passes the middleware exactly with a token of the role "admin".
  auth_middleware-Keyed :
      (tokens : Assoc String) (header : Text) (h : Handler)
      → IsDistinct tokens
      → (auth_middleware digest (token_hashes digest tokens) header (handled h) ≡ handled h)
        ↔ Keyed (extract_bearer_token header) "admin" tokens
  unfolding auth_middleware token_hashes
  auth_middleware-Keyed tokens header h d = (
    λ e. elim (get-add_tokens_sound _ "admin" tokens [] (auth_passed digest _ header h e)) [
      | inl k ↦ k
      | inr n ↦ absurd (get_nothing _ n)
    ],
    λ k. rw (Keyed-is_empty _ _ tokens k, get-add_tokens_complete _ _ tokens [] d k) refl,
  )

  guarded {ℓ} :
      {O : Type ℓ} (tokens : Assoc String) (header : Text) (h : Handler)
      → (O → ⊥)
      → IsDistinct tokens
      → (auth_middleware digest (token_hashes digest tokens) header (handled h) ≡ handled h)
        ↔ (O ⊎ Keyed (extract_bearer_token header) "admin" tokens)
  guarded tokens header h none_open d =
      let (to, from) = auth_middleware-Keyed tokens header h d in
      (λ e. inr (to e), λ x. elim x [ inl o ↦ absurd (none_open o) | inr k ↦ from k ])

  -- The admin listener runs /healthz, and /metrics where it needs no authorization, for everybody. It
  -- runs every other handler exactly for a request whose bearer token is a token of the configuration,
  -- not empty, with the role "admin". The digest has no collisions, and no token stands twice.
  pub admin_mux-Keyed :
      (tokens : Assoc String) (auth_required : Bool) (header : Text) (h : Handler)
      → IsDistinct tokens
      → (admin_mux digest auth_required (token_hashes digest tokens) header h ≡ handled h)
        ↔ (IsOpen auth_required h ⊎ Keyed (extract_bearer_token header) "admin" tokens)
  unfolding admin_mux
  admin_mux-Keyed tokens auth_required header healthz d = (λ e. inl tt, λ x. refl)
  admin_mux-Keyed tokens false header metrics d = (λ e. inl refl, λ x. refl)
  admin_mux-Keyed tokens true header metrics d = guarded tokens header metrics (λ e. cc) d
  admin_mux-Keyed tokens auth_required header state d = guarded tokens header state (λ e. e) d
  admin_mux-Keyed tokens auth_required header nodes d = guarded tokens header nodes (λ e. e) d
  admin_mux-Keyed tokens auth_required header node_by_id d =
      guarded tokens header node_by_id (λ e. e) d
  admin_mux-Keyed tokens auth_required header pools d = guarded tokens header pools (λ e. e) d
  admin_mux-Keyed tokens auth_required header config d = guarded tokens header config (λ e. e) d
  admin_mux-Keyed tokens auth_required header policies d = guarded tokens header policies (λ e. e) d
  admin_mux-Keyed tokens auth_required header policy_by_name d =
      guarded tokens header policy_by_name (λ e. e) d
  admin_mux-Keyed tokens auth_required header decisions d =
      guarded tokens header decisions (λ e. e) d
