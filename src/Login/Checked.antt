-- ===== src/Login/Checked.antt =====
-- What the checks of internal/auth/auth.go and the SASL exchange show of a client.
use grunyas.Prelude.{
  ◌≡◌, refl, false, Option, none, some, List, [], ◌∷◌, arith, if-holds, case-holds,
}
use grunyas.Classifier.Text.{Text}
use grunyas.Login.Client.{
  AuthMethod, plain, md5, scram_sha_256, Incoming, ssl_request, gss_enc_request, startup_message,
  password_message, sasl_initial_response, sasl_response, unexpected, Outgoing, sasl, sasl_continue,
  sasl_final, Client, failed, gave, Talk, Conversation, write, sasl_last, sasl_first, sasl_exchange,
  compute_md5_password,
}
use grunyas.Login.Authenticator.{Credential, authenticate, authenticate_md5}
use grunyas.Login.Start.{after_check, authenticate_by}
use grunyas.Login.Started.{text_eq-equal, is_ok, has_ok}

-- What a client has shown, by the method: the password, its digest with the salt, or both messages of a
-- SCRAM conversation that the server accepts.
abbrev pub ProofFor :
    AuthMethod
    → (Text → Text)
    → Credential
    → Option Conversation
    → (user salt proof : Text) → Type 0
ProofFor plain md5_hex cred scram user salt proof = (user ≡ cred.username) × (proof ≡ cred.password)
ProofFor md5 md5_hex cred scram user salt proof =
    (user ≡ cred.username) × (proof ≡ compute_md5_password md5_hex user cred.password salt)
ProofFor scram_sha_256 md5_hex cred scram user salt proof =
    (conversation : Conversation) × (first answer final : Text) × (step : Text → Option Text)
    × (scram ≡ some conversation)
    × (conversation first ≡ some (answer, step))
    × (step proof ≡ some final)

-- The outcome of a check of credentials that grants nothing by itself.
abbrev pub IsChecked : (Text → Type 0) → Client → Talk Text → Type 0
IsChecked P c (out, failed code message) = has_ok out ≡ false
IsChecked P c (out, gave proof c' ms) = (has_ok out ≡ false) × P proof × (c' ≡ c)

write-IsChecked :
    (P : Text → Type 0) (c0 c : Client) (m : Outgoing) (r : Talk Text)
    → is_ok m ≡ false
    → IsChecked P c0 r
    → IsChecked P c0 (write c m r)
write-IsChecked P c0 c m (out, failed code message) e h =
    if-holds (IsChecked P c0) c.writes_work (λ w. ground (arith, e, h)) (λ w. refl)
write-IsChecked P c0 c m (out, gave proof c1 ms) e (h, t, u) =
    if-holds (IsChecked P c0) c.writes_work (λ w. (ground (arith, e, h), t, u)) (λ w. refl)

authenticate-none :
    (cred : Credential) (user password : Text)
    → authenticate cred user password ≡ none
    → (user ≡ cred.username) × (password ≡ cred.password)
unfolding authenticate
authenticate-none cred user password e = (
  text_eq-equal user cred.username (ground (arith, e)),
  text_eq-equal password cred.password (ground (arith, e)),
)

authenticate_md5-none :
    (md5_hex : Text → Text) (cred : Credential) (user client_hash salt : Text)
    → authenticate_md5 md5_hex cred user client_hash salt ≡ none
    → (user ≡ cred.username) × (client_hash ≡ compute_md5_password md5_hex user cred.password salt)
unfolding authenticate_md5
authenticate_md5-none md5_hex cred user client_hash salt e = (
  text_eq-equal user cred.username (ground (arith, e)),
  text_eq-equal client_hash (compute_md5_password md5_hex user cred.password salt)
      (ground (arith, e)),
)

after_check-IsChecked :
    (P : Text → Type 0) (o : Option Text) (proof : Text) (c : Client) (ms : List Incoming)
    → (o ≡ none → P proof)
    → IsChecked P c (after_check o proof c ms)
after_check-IsChecked P none proof c ms f = (refl, f refl, refl)
after_check-IsChecked P (some message) proof c ms f = refl

sasl_last-IsChecked :
    (P : Text → Type 0) (step : Text → Option Text) (c : Client) (ms : List Incoming)
    → ((proof final : Text) → step proof ≡ some final → P proof)
    → IsChecked P c (sasl_last step c ms)
unfolding sasl_last
sasl_last-IsChecked P step c [] f = refl
sasl_last-IsChecked P step c (sasl_response p ∷ ms) f =
    case-holds (IsChecked P c) (step p) (λ n. refl)
      (λ final n.
        write-IsChecked P c c (sasl_final final) ([], gave p c ms) refl (refl, f p final n, refl))
sasl_last-IsChecked P step c (ssl_request b ∷ ms) f = refl
sasl_last-IsChecked P step c (gss_enc_request ∷ ms) f = refl
sasl_last-IsChecked P step c (startup_message u ∷ ms) f = refl
sasl_last-IsChecked P step c (password_message u ∷ ms) f = refl
sasl_last-IsChecked P step c (sasl_initial_response u ∷ ms) f = refl
sasl_last-IsChecked P step c (unexpected ∷ ms) f = refl

sasl_first-IsChecked :
    (P : Text → Type 0) (conversation : Conversation) (c : Client) (ms : List Incoming)
    → ((first answer proof final : Text) (step : Text → Option Text)
        → conversation first ≡ some (answer, step)
        → step proof ≡ some final
        → P proof)
    → IsChecked P c (sasl_first conversation c ms)
unfolding sasl_first
sasl_first-IsChecked P conversation c [] f = refl
sasl_first-IsChecked P conversation c (sasl_initial_response p ∷ ms) f =
    case-holds (IsChecked P c) (conversation p) (λ n. refl)
      (λ a n.
        write-IsChecked P c c (sasl_continue a.0) (sasl_last a.1 c ms) refl
          (sasl_last-IsChecked P a.1 c ms (λ proof final e. f p a.0 proof final a.1 n e)))
sasl_first-IsChecked P conversation c (ssl_request b ∷ ms) f = refl
sasl_first-IsChecked P conversation c (gss_enc_request ∷ ms) f = refl
sasl_first-IsChecked P conversation c (startup_message u ∷ ms) f = refl
sasl_first-IsChecked P conversation c (password_message u ∷ ms) f = refl
sasl_first-IsChecked P conversation c (sasl_response u ∷ ms) f = refl
sasl_first-IsChecked P conversation c (unexpected ∷ ms) f = refl

pub authenticate_by-IsChecked :
    (method : AuthMethod) (md5_hex : Text → Text) (cred : Credential) (scram : Option Conversation)
    (user password : Text) (c : Client) (ms : List Incoming)
    → IsChecked
        (ProofFor method md5_hex cred scram user c.md5_salt)
        c
        (authenticate_by method md5_hex cred scram user password c ms)
unfolding authenticate_by sasl_exchange
authenticate_by-IsChecked plain md5_hex cred scram user password c ms =
    after_check-IsChecked (ProofFor plain md5_hex cred scram user c.md5_salt)
      (authenticate cred user password) password c ms (authenticate-none cred user password)
authenticate_by-IsChecked md5 md5_hex cred scram user password c ms =
    after_check-IsChecked (ProofFor md5 md5_hex cred scram user c.md5_salt)
      (authenticate_md5 md5_hex cred user password c.md5_salt) password c ms
      (authenticate_md5-none md5_hex cred user password c.md5_salt)
authenticate_by-IsChecked scram_sha_256 md5_hex cred none user password c ms = refl
authenticate_by-IsChecked scram_sha_256 md5_hex cred (some conversation) user password c ms =
    let P = ProofFor scram_sha_256 md5_hex cred (some conversation) user c.md5_salt in
    write-IsChecked P c c sasl (sasl_first conversation c ms) refl (
      sasl_first-IsChecked P conversation c ms (λ first answer proof final step e f.
        (conversation, first, answer, final, step, refl, e, f)))
