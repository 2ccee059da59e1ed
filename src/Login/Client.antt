-- ===== src/Login/Client.antt =====
-- internal/server/downstream_client/client.go up to the first query. The messages of the client are a
-- list, and after its end a receive fails; whether a write works is one answer for a connection. The
-- random salt, and MD5 with its hexadecimal digits, are given.
use grunyas.Prelude.{
  String, Bool, not, ◌&&◌, ◌||◌, Option, none, some, List, [], ◌∷◌, ◌++◌, if◌then◌else◌,
}
use grunyas.Classifier.Text.{Text, codes}

pub data AuthMethod : Type 0 where
  plain md5 scram_sha_256 : AuthMethod

-- A request for TLS comes with the outcome of the handshake that would follow.
pub data Incoming : Type 0 where
  ssl_request : Bool → Incoming
  gss_enc_request : Incoming
  startup_message password_message sasl_initial_response sasl_response : Text → Incoming
  unexpected : Incoming

pub data Outgoing : Type 0 where
  accept_tls refuse_encryption : Outgoing
  fatal : String → Text → Outgoing
  cleartext_password sasl : Outgoing
  md5_password sasl_continue sasl_final : Text → Outgoing
  authentication_ok : Outgoing
  parameter_status : String → String → Outgoing
  backend_key_data ready_for_query : Outgoing

pub record Client : Type 0 where
  pub has_tls : Bool
  pub required_ssl : Bool
  pub is_tls : Bool
  pub writes_work : Bool
  pub md5_salt : Text

-- An error, or a value with the client and the messages that are left.
pub data Outcome {ℓ} (A : Type ℓ) : Type ℓ where
  failed : String → Text → Outcome A
  gave : A → Client → List Incoming → Outcome A

abbrev pub io_error : Text
io_error = codes "connection error"

abbrev pub Talk {ℓ} : Type ℓ → Type ℓ
Talk A = List Outgoing × Outcome A

-- A message, and then the rest.
abbrev pub write {ℓ} : {A : Type ℓ} → Client → Outgoing → Talk A → Talk A
write c m (out, r) = if c.writes_work then (m ∷ out, r) else ([], failed "" io_error)

-- `startupCleartext` and `startupMD5` after the challenge.
unfoldable pub receive_password : Text → Client → List Incoming → Talk (Text × Text)
receive_password user c (password_message p ∷ ms) = ([], gave (user, p) c ms)
receive_password user c (m ∷ ms) = ([], failed "" (codes "expected password message"))
receive_password user c [] = ([], failed "" io_error)

unfoldable pub challenge : AuthMethod → Text → Client → List Incoming → Talk (Text × Text)
unfolding receive_password
challenge plain user c ms = write c cleartext_password (receive_password user c ms)
challenge md5 user c ms = write c (md5_password c.md5_salt) (receive_password user c ms)
challenge scram_sha_256 user c ms = ([], gave (user, []) c ms)

-- A startup message: TLS is enforced here.
unfoldable pub start_user : AuthMethod → Text → Client → List Incoming → Talk (Text × Text)
unfolding challenge
start_user method user c ms =
    if c.required_ssl && not c.is_tls
    then write c (fatal "28000" (codes "SSL connection is required"))
        ([], failed "" (codes "ssl connection is required"))
    else challenge method user c ms

unfoldable pub startup : AuthMethod → Client → List Incoming → Talk (Text × Text)
unfolding start_user
startup method c [] = ([], failed "" io_error)
startup method c (ssl_request works ∷ ms) =
    let rest = startup method (record c { is_tls = c.has_tls || c.is_tls }) ms in
    if not c.has_tls
    then write c refuse_encryption rest
    else if works
    then write c accept_tls rest
    else write c accept_tls ([], failed "" (codes "tls handshake failed"))
startup method c (gss_enc_request ∷ ms) = write c refuse_encryption (startup method c ms)
startup method c (startup_message user ∷ ms) = start_user method user c ms
startup method c (m ∷ ms) = ([], failed "" (codes "unexpected message type"))

-- A server's part of a SCRAM conversation: an answer, and after the first one what goes on.
abbrev pub Conversation : Type 0
Conversation = Text → Option (Text × (Text → Option Text))

unfoldable pub sasl_last : (Text → Option Text) → Client → List Incoming → Talk Text
sasl_last step c (sasl_response payload ∷ ms) = elim (step payload) [
  | none ↦ ([], failed "" (codes "SCRAM step 2"))
  | some answer ↦ write c (sasl_final answer) ([], gave payload c ms)
]
sasl_last step c (m ∷ ms) = ([], failed "" (codes "expected SASLResponse"))
sasl_last step c [] = ([], failed "" io_error)

unfoldable pub sasl_first : Conversation → Client → List Incoming → Talk Text
unfolding sasl_last
sasl_first conversation c (sasl_initial_response payload ∷ ms) = elim (conversation payload) [
  | none ↦ ([], failed "" (codes "SCRAM step 1"))
  | some (answer, step) ↦ write c (sasl_continue answer) (sasl_last step c ms)
]
sasl_first conversation c (m ∷ ms) = ([], failed "" (codes "expected SASLInitialResponse"))
sasl_first conversation c [] = ([], failed "" io_error)

unfoldable pub sasl_exchange : Conversation → Client → List Incoming → Talk Text
unfolding sasl_first
sasl_exchange conversation c ms = write c sasl (sasl_first conversation c ms)

-- "md5" + md5(md5(password + user) + salt), with digests in hexadecimal.
unfoldable pub compute_md5_password : (Text → Text) → (user password salt : Text) → Text
compute_md5_password md5_hex user password salt =
    codes "md5" ++ md5_hex (md5_hex (password ++ user) ++ salt)

abbrev pub handshake : List Outgoing
handshake =
    parameter_status "server_version" "14.0"
    ∷ parameter_status "server_encoding" "UTF8"
    ∷ parameter_status "client_encoding" "UTF8"
    ∷ parameter_status "DateStyle" "ISO, MDY"
    ∷ parameter_status "integer_datetimes" "on"
    ∷ parameter_status "standard_conforming_strings" "on"
    ∷ backend_key_data
    ∷ ready_for_query
    ∷ []
