-- ===== src/Login/Secrets.antt =====
-- A stored secret of internal/auth/auth.go is read back from its text.
use grunyas.Prelude.{
  ℕ, ◌≡◌, refl, ap, ◌∙◌, false, Option, some, [], ◌∷◌, ◌++◌, ◌==◌, All, All-append, arith,
}
use grunyas.Prelude.Int.{ℤ}
use grunyas.Classifier.Text.{Text, codes}
use grunyas.Session.Boundary.{has_prefix}
use grunyas.Messaging.SessionState.{split}
use grunyas.Messaging.Batches.{split-append}
use grunyas.Login.StoredScram.{
  StoredCredentials, Parsed, stored, parse_keys, parse_iters, parse_parts, parse_stored_scram,
  scram_stored,
}

abbrev pub Lacks : ℕ → Text → Type 0
Lacks sep = All (λ c. (c == sep) ≡ false)

split-Lacks : (sep : ℕ) (s : Text) → Lacks sep s → split sep s ≡ s ∷ []
unfolding split
split-Lacks sep [] h = refl
split-Lacks sep (c ∷ s) (e, h) = ground (arith, split-Lacks sep s h, e)

split_two :
    (sep : ℕ) (s t : Text) → Lacks sep s → Lacks sep t → split sep (s ++ sep ∷ t) ≡ s ∷ t ∷ []
split_two sep s t h k = rw (split-append sep s t, split-Lacks sep s h, split-Lacks sep t k) refl

-- SCRAM-SHA-256$<iters>:<salt>$<storedKey>:<serverKey>
unfoldable pub secret_text : (iters salt stored_key server_key : Text) → Text
secret_text iters salt stored_key server_key =
    codes "SCRAM-SHA-256"
    ++ b'$' ∷ (iters ++ b':' ∷ salt)
    ++ b'$' ∷ (stored_key ++ b':' ∷ server_key)

-- A text of a field, in which there is no mark.
abbrev pub IsField : Text → Type 0
IsField s = Lacks b'$' s × Lacks b':' s

field_pair : (s t : Text) → IsField s → IsField t → Lacks b'$' (s ++ b':' ∷ t)
field_pair s t h k = All-append (λ c. (c == b'$') ≡ false) s (b':' ∷ t) h.0 (refl, k.0)

split-secret_text :
    (i s k v : Text)
    → IsField i
    → IsField s
    → IsField k
    → IsField v
    → split b'$' (secret_text i s k v)
      ≡ codes "SCRAM-SHA-256" ∷ (i ++ b':' ∷ s) ∷ (k ++ b':' ∷ v) ∷ []
unfolding secret_text split
split-secret_text i s k v hi hs hk hv =
    split-append b'$' (codes "SCRAM-SHA-256") ((i ++ b':' ∷ s) ++ b'$' ∷ (k ++ b':' ∷ v))
    ∙ ap (λ ps. split b'$' (codes "SCRAM-SHA-256") ++ ps)
        (split_two b'$' (i ++ b':' ∷ s) (k ++ b':' ∷ v) (field_pair i s hi hs)
          (field_pair k v hk hv))

module _ (atoi : Text → Option ℤ) (decode64 : Text → Option Text) where
  keys_parsed :
      (c : StoredCredentials) (k v : Text)
      → decode64 k ≡ some c.stored_key
      → decode64 v ≡ some c.server_key
      → parse_keys atoi decode64 c.iters c.salt (k ∷ v ∷ []) ≡ stored c
  unfolding parse_keys
  keys_parsed c k v ek ev = rw (parse_keys, ek, ev) refl

  iters_parsed :
      (c : StoredCredentials) (i keys : Text)
      → atoi i ≡ some c.iters
      → parse_iters atoi decode64 (i ∷ c.salt ∷ []) keys
        ≡ parse_keys atoi decode64 c.iters c.salt (split b':' keys)
  unfolding parse_iters
  iters_parsed c i keys ei = rw (parse_iters, ei) refl

-- For a parser of numbers that reads the iterations, and a decoder that reads both keys, from texts
-- without a dollar or a colon, and such a salt: the secret that is written from them is taken for a stored
-- one, whatever is derived from other passwords, and gives them back.
pub scram_stored-secret_text :
    (atoi : Text → Option ℤ) (decode64 : Text → Option Text) (derive : Text → Parsed)
    (c : StoredCredentials) (i k v : Text)
    → atoi i ≡ some c.iters
    → decode64 k ≡ some c.stored_key
    → decode64 v ≡ some c.server_key
    → IsField i
    → IsField c.salt
    → IsField k
    → IsField v
    → scram_stored atoi decode64 derive (secret_text i c.salt k v) ≡ stored c
unfolding scram_stored has_prefix secret_text parse_stored_scram parse_parts
scram_stored-secret_text atoi decode64 derive c i k v ei ek ev hi hs hk hv =
    ap (parse_parts atoi decode64) (split-secret_text i c.salt k v hi hs hk hv)
    ∙ (ap (λ ps. parse_iters atoi decode64 ps (k ++ b':' ∷ v)) (split_two b':' i c.salt hi.1 hs.1)
        ∙ (iters_parsed atoi decode64 c i (k ++ b':' ∷ v) ei
            ∙ (ap (parse_keys atoi decode64 c.iters c.salt) (split_two b':' k v hk.1 hv.1)
                ∙ keys_parsed atoi decode64 c k v ek ev)))
