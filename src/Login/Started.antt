-- ===== src/Login/Started.antt =====
-- What `Startup` of internal/server/downstream_client/client.go grants: nothing.
use grunyas.Prelude.{
  ◌≡◌, refl, Bool, true, false, not, ◌&&◌, ◌||◌, List, [], ◌∷◌, ◌++◌, arith, if-holds,
}
use grunyas.Classifier.Text.{Text, codes, text_eq}
use grunyas.Login.Client.{
  AuthMethod, plain, md5, scram_sha_256, Incoming, ssl_request, gss_enc_request, startup_message,
  password_message, sasl_initial_response, sasl_response, unexpected, Outgoing, accept_tls,
  refuse_encryption, fatal, cleartext_password, md5_password, authentication_ok, Client, failed,
  gave, Talk, write, receive_password, challenge, start_user, startup,
}

pub text_eq-equal : (s t : Text) → text_eq s t ≡ true → s ≡ t
text_eq-equal [] [] e = refl
text_eq-equal [] (d ∷ t) e = cc
text_eq-equal (c ∷ s) [] e = cc
text_eq-equal (c ∷ s) (d ∷ t) e =
    let first : c ≡ d = ground (arith, e) in let rest = text_eq-equal s t (ground (arith, e)) in cc

abbrev pub is_ok : Outgoing → Bool
is_ok authentication_ok = true
is_ok _ = false

abbrev pub has_ok : List Outgoing → Bool
has_ok [] = false
has_ok (m ∷ ms) = is_ok m || has_ok ms

pub has_ok-append : (ms ns : List Outgoing) → has_ok (ms ++ ns) ≡ (has_ok ms || has_ok ns)
has_ok-append [] ns = refl
has_ok-append (m ∷ ms) ns = ground (arith, has_ok-append ms ns)

-- Before the credentials nothing is granted, and TLS is on if it is required.
abbrev pub IsStarted : Client → Talk (Text × Text) → Type 0
IsStarted c0 (out, failed code message) = has_ok out ≡ false
IsStarted c0 (out, gave answer c ms) =
    (has_ok out ≡ false)
    × ((not c0.required_ssl || c.is_tls) ≡ true)
    × (c.md5_salt ≡ c0.md5_salt)
    × (c.required_ssl ≡ c0.required_ssl)

write-IsStarted :
    (c0 c : Client) (m : Outgoing) (r : Talk (Text × Text))
    → is_ok m ≡ false
    → IsStarted c0 r
    → IsStarted c0 (write c m r)
write-IsStarted c0 c m (out, failed code message) e h =
    if-holds (IsStarted c0) c.writes_work (λ w. ground (arith, e, h)) (λ w. refl)
write-IsStarted c0 c m (out, gave answer c1 ms) e (h, t, u, v) =
    if-holds (IsStarted c0) c.writes_work (λ w. (ground (arith, e, h), t, u, v)) (λ w. refl)

abbrev Keeps : Client → Client → Type 0
Keeps c0 c = (c.md5_salt ≡ c0.md5_salt) × (c.required_ssl ≡ c0.required_ssl)

receive_password-IsStarted :
    (c0 c : Client) (user : Text) (ms : List Incoming)
    → Keeps c0 c
    → (not c0.required_ssl || c.is_tls) ≡ true
    → IsStarted c0 (receive_password user c ms)
unfolding receive_password
receive_password-IsStarted c0 c user [] k s = refl
receive_password-IsStarted c0 c user (password_message p ∷ ms) k s = (refl, s, k.0, k.1)
receive_password-IsStarted c0 c user (ssl_request b ∷ ms) k s = refl
receive_password-IsStarted c0 c user (gss_enc_request ∷ ms) k s = refl
receive_password-IsStarted c0 c user (startup_message u ∷ ms) k s = refl
receive_password-IsStarted c0 c user (sasl_initial_response u ∷ ms) k s = refl
receive_password-IsStarted c0 c user (sasl_response u ∷ ms) k s = refl
receive_password-IsStarted c0 c user (unexpected ∷ ms) k s = refl

challenge-IsStarted :
    (method : AuthMethod) (c0 c : Client) (user : Text) (ms : List Incoming)
    → Keeps c0 c
    → (not c0.required_ssl || c.is_tls) ≡ true
    → IsStarted c0 (challenge method user c ms)
unfolding challenge
challenge-IsStarted plain c0 c user ms k s =
    write-IsStarted c0 c cleartext_password (receive_password user c ms) refl
      (receive_password-IsStarted c0 c user ms k s)
challenge-IsStarted md5 c0 c user ms k s =
    write-IsStarted c0 c (md5_password c.md5_salt) (receive_password user c ms) refl
      (receive_password-IsStarted c0 c user ms k s)
challenge-IsStarted scram_sha_256 c0 c user ms k s = (refl, s, k.0, k.1)

pub startup-IsStarted :
    (method : AuthMethod) (c0 c : Client) (ms : List Incoming)
    → Keeps c0 c
    → IsStarted c0 (startup method c ms)
unfolding startup start_user
startup-IsStarted method c0 c [] k = refl
startup-IsStarted method c0 c (ssl_request works ∷ ms) k =
    let rest = startup-IsStarted method c0 (record c { is_tls = c.has_tls || c.is_tls }) ms k in
    if-holds (IsStarted c0) (not c.has_tls)
      (λ b. write-IsStarted c0 c refuse_encryption _ refl rest)
      λ b.
        if-holds (IsStarted c0) works (λ w. write-IsStarted c0 c accept_tls _ refl rest)
          (λ w.
            write-IsStarted c0 c accept_tls ([], failed "" (codes "tls handshake failed")) refl
              refl)
startup-IsStarted method c0 c (gss_enc_request ∷ ms) k =
    write-IsStarted c0 c refuse_encryption (startup method c ms) refl
      (startup-IsStarted method c0 c ms k)
startup-IsStarted method c0 c (startup_message user ∷ ms) k =
    if-holds (IsStarted c0) (c.required_ssl && not c.is_tls)
      (λ b.
        write-IsStarted c0 c (fatal "28000" (codes "SSL connection is required"))
          ([], failed "" (codes "ssl connection is required")) refl refl)
      (λ b. challenge-IsStarted method c0 c user ms k (ground (arith, b, k.1)))
startup-IsStarted method c0 c (password_message p ∷ ms) k = refl
startup-IsStarted method c0 c (sasl_initial_response p ∷ ms) k = refl
startup-IsStarted method c0 c (sasl_response p ∷ ms) k = refl
startup-IsStarted method c0 c (unexpected ∷ ms) k = refl
