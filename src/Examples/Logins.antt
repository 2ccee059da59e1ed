-- ===== src/Examples/Logins.antt =====
-- A client that asks for TLS and then gives its name and password to a port that requires TLS.
use grunyas.Prelude.{
  refl, ◌≡◌, some, ◌-◌, Option, true, false, none, List, [], ◌∷◌, ◌++◌, Option, some, ◌-◌, ◌≡◌,
}
use grunyas.Classifier.Text.{Text, codes}
use grunyas.Login.Client.{Client, Incoming, ssl_request, startup_message, password_message}
use grunyas.Login.Authenticator.{Credential}
use grunyas.Login.Start.{login}
use grunyas.Prelude.Int.{ℤ, pos}
use grunyas.Login.StoredScram.{StoredCredentials, scram_stored, invalid, stored}
use grunyas.Login.Secrets.{secret_text, scram_stored-secret_text}
use grunyas.Login.Admitted.{IsGranted, login-IsGranted}

abbrev credential : Credential
credential = record { username = codes "app"; password = codes "secret"; method = codes "plain" }

abbrev visitor : Client
visitor = record {
  has_tls = true;
  required_ssl = true;
  is_tls = false;
  writes_work = true;
  md5_salt = codes "abcd";
}

abbrev digest : Text → Text
digest t = codes "#" ++ t

abbrev messages : List Incoming
messages = ssl_request true ∷ startup_message (codes "app") ∷ password_message (codes "secret") ∷ []

login-IsGranted_example :
    IsGranted digest credential none visitor (login digest credential none none visitor messages)
login-IsGranted_example = login-IsGranted digest credential none none visitor messages

-- Numbers of one digit, and keys as they are.
abbrev digit : Text → Option ℤ
digit (c ∷ []) = some (pos (c - 48))
digit _ = none

abbrev keys : StoredCredentials
keys = record {
  salt = codes "c2FsdA";
  iters = pos 7;
  stored_key = codes "aa";
  server_key = codes "bb";
}

scram_stored-secret_text_example :
    scram_stored digit
      (λ s. some s)
      (λ s. invalid "none")
      (secret_text (codes "7") keys.salt (codes "aa") (codes "bb"))
    ≡ stored keys
scram_stored-secret_text_example =
    scram_stored-secret_text digit (λ s. some s) (λ s. invalid "none") keys (codes "7") (codes "aa")
      (codes "bb") refl refl refl ((refl, tt), (refl, tt))
      (
        (refl, (refl, (refl, (refl, (refl, (refl, tt)))))),
        (refl, (refl, (refl, (refl, (refl, (refl, tt)))))),
      )
      ((refl, (refl, tt)), (refl, (refl, tt))) ((refl, (refl, tt)), (refl, (refl, tt)))
