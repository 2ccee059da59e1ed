-- ===== src/Login/StoredScram.antt =====
-- `scramStored` and `parseStoredSCRAM` of internal/auth/auth.go. strconv.Atoi and the decoder of base64
-- are parameters, and so are the credentials that the SCRAM library derives from a password.
use grunyas.Prelude.{
  ℕ, String, Option, none, some, List, [], ◌∷◌, map, ◌-◌, ◌&&◌, leb, if◌then◌else◌,
}
use grunyas.Prelude.Int.{ℤ}
use grunyas.Classifier.Text.{Text, codes}
use grunyas.Session.Boundary.{has_prefix}
use grunyas.Messaging.SessionState.{split}

pub record StoredCredentials : Type 0 where
  pub salt : Text
  pub iters : ℤ
  pub stored_key : Text
  pub server_key : Text

pub data Parsed : Type 0 where
  invalid : String → Parsed
  stored : StoredCredentials → Parsed

-- unicode.ToUpper
abbrev pub to_upper : ℕ → ℕ
to_upper c = if leb 97 c && leb c 122 then c - 32 else c

module _ (atoi : Text → Option ℤ) (decode64 : Text → Option Text) where
  unfoldable pub parse_keys : ℤ → Text → List Text → Parsed
  parse_keys iters salt (k ∷ s ∷ []) = elim (decode64 k) [
    | none ↦ invalid "invalid SCRAM stored key"
    | some stored_key ↦ elim (decode64 s) [
      | none ↦ invalid "invalid SCRAM server key"
      | some server_key ↦
          stored (record {
            salt = salt;
            iters = iters;
            stored_key = stored_key;
            server_key = server_key;
          })
    ]
  ]
  parse_keys iters salt _ = invalid "invalid SCRAM secret keys"

  unfoldable pub parse_iters : List Text → Text → Parsed
  unfolding parse_keys split
  parse_iters (i ∷ salt ∷ []) keys = elim (atoi i) [
    | none ↦ invalid "invalid SCRAM iterations"
    | some iters ↦ parse_keys iters salt (split b':' keys)
  ]
  parse_iters _ keys = invalid "invalid SCRAM secret iter/salt"

  unfoldable pub parse_parts : List Text → Parsed
  unfolding parse_iters split
  parse_parts (prefix ∷ iter_salt ∷ keys ∷ []) = parse_iters (split b':' iter_salt) keys
  parse_parts _ = invalid "invalid SCRAM secret format"

  unfoldable pub parse_stored_scram : Text → Parsed
  unfolding parse_parts split
  parse_stored_scram secret = parse_parts (split b'$' secret)

  unfoldable pub scram_stored : (Text → Parsed) → Text → Parsed
  unfolding parse_stored_scram has_prefix
  scram_stored derive password =
      if has_prefix (codes "SCRAM-SHA-256$") (map to_upper password)
      then parse_stored_scram password
      else derive password
