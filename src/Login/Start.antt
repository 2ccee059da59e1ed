-- ===== src/Login/Start.antt =====
-- `Run` of internal/server/session/session.go up to its loop, with `authenticate`. The lease of the
-- session mode is the error of the acquisition, with its code, or none.
use grunyas.Prelude.{String, Option, none, some, List, [], ◌∷◌, ◌++◌, if◌then◌else◌, str_eq}
use grunyas.Classifier.Text.{Text, codes}
use grunyas.Login.Client.{
  AuthMethod, plain, md5, scram_sha_256, Incoming, Outgoing, fatal, authentication_ok, Client,
  failed, gave, Talk, Conversation, startup, sasl_exchange, handshake,
}
use grunyas.Login.Authenticator.{Credential, method_of, authenticate, authenticate_md5}

abbrev pub after_check : Option Text → Text → Client → List Incoming → Talk Text
after_check none answer c ms = ([], gave answer c ms)
after_check (some message) answer c ms = ([], failed "28P01" message)

-- The credentials, with what the client gave as its proof. Without a SCRAM server there is an error.
unfoldable pub authenticate_by :
    AuthMethod
    → (Text → Text)
    → Credential
    → Option Conversation
    → (user password : Text) → Client
    → List Incoming
    → Talk Text
unfolding authenticate authenticate_md5 sasl_exchange
authenticate_by plain md5_hex cred scram user password c ms =
    after_check (authenticate cred user password) password c ms
authenticate_by md5 md5_hex cred scram user password c ms =
    after_check (authenticate_md5 md5_hex cred user password c.md5_salt) password c ms
authenticate_by scram_sha_256 md5_hex cred none user password c ms =
    ([], failed "28P01" (codes "SCRAM not configured"))
authenticate_by scram_sha_256 md5_hex cred (some conversation) user password c ms =
    sasl_exchange conversation c ms

unfoldable pub authenticate_session :
    (Text → Text)
    → Credential
    → Option Conversation
    → (user password : Text) → Client
    → List Incoming
    → Talk Text
unfolding authenticate_by method_of
authenticate_session md5_hex cred = authenticate_by (method_of cred) md5_hex cred

abbrev pub code_or : String → String → String
code_or default code = if str_eq code "" then default else code

-- CloseWithError, for a client that can be written to.
abbrev pub close_with : Client → String → Text → List Outgoing
close_with c code message = if c.writes_work then fatal code message ∷ [] else []

-- Whether the loop starts, and with which user and proof.
pub data Login : Type 0 where
  refused : Login
  admitted : (user proof : Text) → Client → Login

-- The rest after the credentials: `session_lease` is, in session mode, the outcome of the acquisition.
-- The context is not cancelled during the start, so that the test of ctx.Err behind it is left out;
-- all writes work or none does.
unfoldable pub welcome :
    Option (Option (String × Text)) → Text → Text → Client → List Outgoing × Login
welcome (some (some (code, message))) user proof c =
    (close_with c (code_or "53300" code) message, refused)
welcome _ user proof c =
    if c.writes_work then (authentication_ok ∷ handshake, admitted user proof c) else ([], refused)

unfoldable pub after_proof :
    Option (Option (String × Text)) → Text → Client → Talk Text → List Outgoing × Login
unfolding welcome
after_proof session_lease user c (out, failed code message) =
    (out ++ close_with c (code_or "28P01" code) message, refused)
after_proof session_lease user c (out, gave proof c' ms) =
    let (more, login) = welcome session_lease user proof c' in (out ++ more, login)

unfoldable pub after_startup :
    (Text → Text)
    → Credential
    → Option Conversation
    → Option (Option (String × Text))
    → Talk (Text × Text)
    → List Outgoing × Login
unfolding authenticate_session after_proof
after_startup md5_hex cred scram session_lease (out, failed code message) = (out, refused)
after_startup md5_hex cred scram session_lease (out, gave (user, password) c ms) =
    let (more, login) =
      after_proof session_lease user c
        (authenticate_session md5_hex cred scram user password c ms) in
    (out ++ more, login)

unfoldable pub login :
    (Text → Text)
    → Credential
    → Option Conversation
    → Option (Option (String × Text))
    → Client
    → List Incoming
    → List Outgoing × Login
unfolding startup after_startup method_of
login md5_hex cred scram session_lease c ms =
    after_startup md5_hex cred scram session_lease (startup (method_of cred) c ms)
