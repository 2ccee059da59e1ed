-- ===== src/Login/Admitted.antt =====
-- Who is let in by internal/server/session/session.go.
use grunyas.Prelude.{
  ◌≡◌, refl, sym, String, true, false, not, ◌||◌, Option, none, some, List, ◌++◌, arith, if-holds,
  subst,
}
use grunyas.Classifier.Text.{Text}
use grunyas.Login.Client.{Incoming, Outgoing, Client, failed, gave, Talk, Conversation, startup}
use grunyas.Login.Authenticator.{Credential, method_of}
use grunyas.Login.Start.{
  authenticate_session, close_with, Login, refused, admitted, welcome, after_proof, after_startup,
  login, code_or, authenticate_by,
}
use grunyas.Login.Started.{has_ok, has_ok-append, IsStarted, startup-IsStarted}
use grunyas.Login.Checked.{ProofFor, IsChecked, authenticate_by-IsChecked}

abbrev pub IsGranted :
    (Text → Text) → Credential → Option Conversation → Client → List Outgoing × Login → Type 0
IsGranted md5_hex cred scram c0 (out, refused) = has_ok out ≡ false
IsGranted md5_hex cred scram c0 (out, admitted user proof c) =
    (has_ok out ≡ true)
    × ((not c0.required_ssl || c.is_tls) ≡ true)
    × ProofFor (method_of cred) md5_hex cred scram user c0.md5_salt proof

none-closed :
    (c : Client) (code : String) (message : Text) → has_ok (close_with c code message) ≡ false
none-closed c code message =
    if-holds (λ (ms : List Outgoing). has_ok ms ≡ false) c.writes_work (λ w. refl) (λ w. refl)

module _ (md5_hex : Text → Text) (cred : Credential) (scram : Option Conversation)
    (c0 : Client) where
  append-IsGranted :
      (out : List Outgoing) (r : List Outgoing × Login)
      → has_ok out ≡ false
      → IsGranted md5_hex cred scram c0 r
      → IsGranted md5_hex cred scram c0 (out ++ r.0, r.1)
  append-IsGranted out (more, refused) e h = ground (arith, has_ok-append out more, e, h)
  append-IsGranted out (more, admitted user proof c) e (h, s, p) =
      (ground (arith, has_ok-append out more, e, h), s, p)

  welcome-IsGranted :
      (lease : Option (Option (String × Text))) (user proof : Text) (c : Client)
      → (not c0.required_ssl || c.is_tls) ≡ true
      → ProofFor (method_of cred) md5_hex cred scram user c0.md5_salt proof
      → IsGranted md5_hex cred scram c0 (welcome lease user proof c)
  unfolding welcome
  welcome-IsGranted (some (some (code, message))) user proof c s p =
      none-closed c (code_or "53300" code) message
  welcome-IsGranted (some none) user proof c s p =
      if-holds (IsGranted md5_hex cred scram c0) c.writes_work (λ w. (refl, s, p)) (λ w. refl)
  welcome-IsGranted none user proof c s p =
      if-holds (IsGranted md5_hex cred scram c0) c.writes_work (λ w. (refl, s, p)) (λ w. refl)

  after_proof-IsGranted :
      (lease : Option (Option (String × Text))) (user : Text) (c : Client) (r : Talk Text)
      → (not c0.required_ssl || c.is_tls) ≡ true
      → IsChecked (ProofFor (method_of cred) md5_hex cred scram user c0.md5_salt) c r
      → IsGranted md5_hex cred scram c0 (after_proof lease user c r)
  unfolding after_proof
  after_proof-IsGranted lease user c (out, failed code message) s h =
      append-IsGranted out (close_with c (code_or "28P01" code) message, refused) h
        (none-closed c (code_or "28P01" code) message)
  after_proof-IsGranted lease user c (out, gave proof c' ms) s (h, p, e) =
      append-IsGranted out (welcome lease user proof c') h (
        welcome-IsGranted lease user proof c'
          (subst (λ (d : Client). (not c0.required_ssl || d.is_tls) ≡ true) (sym e) s) p)

  after_startup-IsGranted :
      (lease : Option (Option (String × Text))) (r : Talk (Text × Text))
      → IsStarted c0 r
      → IsGranted md5_hex cred scram c0 (after_startup md5_hex cred scram lease r)
  unfolding after_startup authenticate_session
  after_startup-IsGranted lease (out, failed code message) h = h
  after_startup-IsGranted lease (out, gave (user, password) c ms) (h, s, salt, k) =
      let r = authenticate_by (method_of cred) md5_hex cred scram user password c ms in
      append-IsGranted out (after_proof lease user c r) h (
        after_proof-IsGranted lease user c r s (
          subst (λ (t : Text). IsChecked (ProofFor (method_of cred) md5_hex cred scram user t) c r)
            salt
            (authenticate_by-IsChecked (method_of cred) md5_hex cred scram user password c ms)))

-- Whatever a client sends, and whatever the pool answers: AuthenticationOk is sent exactly when the session
-- starts; and then the connection is encrypted if the port requires it, and the client has shown, by
-- the configured method, the configured user and password, the user and the digest of the password with
-- the salt that it was sent, or both messages of a SCRAM conversation that the SCRAM server accepts.
pub login-IsGranted :
    (md5_hex : Text → Text) (cred : Credential) (scram : Option Conversation)
    (lease : Option (Option (String × Text))) (c : Client) (ms : List Incoming)
    → IsGranted md5_hex cred scram c (login md5_hex cred scram lease c ms)
unfolding login
login-IsGranted md5_hex cred scram lease c ms =
    after_startup-IsGranted md5_hex cred scram c lease (startup (method_of cred) c ms)
      (startup-IsStarted (method_of cred) c c ms (refl, refl))
