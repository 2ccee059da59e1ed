-- ===== src/Login/Authenticator.antt =====
-- internal/auth/auth.go, apart from the preparation of SCRAM credentials, which belongs to a library.
use grunyas.Prelude.{not, Option, none, some, ◌++◌, if◌then◌else◌}
use grunyas.Classifier.Text.{Text, codes, text_eq}
use grunyas.Login.Client.{AuthMethod, plain, md5, scram_sha_256, compute_md5_password}

-- The method is the lower-case text of the configuration.
pub record Credential : Type 0 where
  pub username : Text
  pub password : Text
  pub method : Text

unfoldable pub method_of : Credential → AuthMethod
method_of cred =
    if text_eq cred.method (codes "md5")
    then md5
    else if text_eq cred.method (codes "scram-sha-256")
    then scram_sha_256
    else plain

-- The error of a check, if there is one.
unfoldable pub authenticate : Credential → (user password : Text) → Option Text
authenticate cred user password =
    if not (text_eq user cred.username)
    then some (codes "role \"" ++ (user ++ codes "\" does not exist"))
    else if not (text_eq password cred.password)
    then some (codes "invalid password")
    else none

unfoldable pub authenticate_md5 :
    (Text → Text) → Credential → (user client_hash salt : Text) → Option Text
unfolding compute_md5_password
authenticate_md5 md5_hex cred user client_hash salt =
    if not (text_eq user cred.username)
    then some (codes "role \"" ++ (user ++ codes "\" does not exist"))
    else if not (text_eq client_hash (compute_md5_password md5_hex user cred.password salt))
    then some (codes "invalid password")
    else none
