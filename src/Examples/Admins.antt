-- ===== src/Examples/Admins.antt =====
-- Requests to the admin API, its configuration, and the durations of decisions.
use Prim.Native.Char.{Char, code}
use grunyas.Prelude.{
  zero, suc, sym, ap, ◌∙◌, if◌then◌else◌, ◌==◌, ℕ, ◌≡◌, ◌↔◌, ◌⊎◌, true, refl, String, [], ◌∷◌,
}
use grunyas.Prelude.Assoc.{Assoc, get}
use grunyas.Classifier.Text.{Text, codes}
use grunyas.Admin.Redact.{Json, Entries, json_map, text, no_entries, entry, redact_config}
use grunyas.Admin.Redacted.{
  objects, passwords, tokens, right_token, redact_config-Alike, OnlyTokens, AlikeEntries,
}
use grunyas.Admin.Access.{state, handled, token_hashes, admin_mux, extract_bearer_token}
use grunyas.Admin.Granted.{Keyed, IsInjective, IsOpen, admin_mux-Keyed}
use grunyas.Routing.Histogram.{observations}
use grunyas.Routing.Cumulative.{ShowsAt, observations-durations_of}

abbrev with_secret : String → Entries → Json
with_secret password admin =
    json_map (entry "password" (text password) (entry "admin_tokens" (json_map admin) no_entries))

redact_config-Alike_example :
    redact_config 1 (with_secret "a" no_entries)
    ≡ redact_config 1 (with_secret "b" (entry "tokens" (json_map no_entries) no_entries))
redact_config-Alike_example =
    redact_config-Alike 1 (with_secret "a" no_entries)
      (with_secret "b" (entry "tokens" (json_map no_entries) no_entries))
      (objects _ _ (
        passwords "a" "b" _ _ (λ e. cc) (λ e. cc)
          (tokens _ _ _ _ (right_token _ _ _ OnlyTokens.ended) AlikeEntries.ended)))

-- A digest without collisions: each code in unary.
abbrev letter_a : Char
letter_a = "a"

abbrev letter_b : Char
letter_b = "b"

abbrev unary : ℕ → String → String
unary zero s = String.◌∷◌ letter_b s
unary (suc n) s = String.◌∷◌ letter_a (unary n s)

abbrev digest : Text → String
digest [] = String.[]
digest (c ∷ s) = unary c (digest s)

abbrev one_more : Text → Text
one_more [] = []
one_more (n ∷ s) = suc n ∷ s

abbrev read_back : String → Text
read_back String.[] = []
read_back (String.◌∷◌ c s) = if code c == b'a' then one_more (read_back s) else 0 ∷ read_back s

read_back-unary : (n : ℕ) (s : String) → read_back (unary n s) ≡ n ∷ read_back s
read_back-unary zero s = refl
read_back-unary (suc n) s = ap one_more (read_back-unary n s)

read_back-digest : (s : Text) → read_back (digest s) ≡ s
read_back-digest [] = refl
read_back-digest (c ∷ s) = read_back-unary c (digest s) ∙ ap (λ t. c ∷ t) (read_back-digest s)

digest-IsInjective : IsInjective digest
digest-IsInjective s t e = sym (read_back-digest s) ∙ (ap read_back e ∙ read_back-digest t)

abbrev two_tokens : Assoc String
two_tokens = ("xy", "admin") ∷ ("", "admin") ∷ []

admin_mux-Keyed_example :
    (admin_mux digest true (token_hashes digest two_tokens) (codes "bearer  xy") state
      ≡ handled state)
    ↔ (IsOpen true state ⊎ Keyed (extract_bearer_token (codes "bearer  xy")) "admin" two_tokens)
admin_mux-Keyed_example =
    admin_mux-Keyed digest digest-IsInjective two_tokens true (codes "bearer  xy") state
      ((λ e. cc, tt), (tt, tt))

observations-durations_of_example :
    ShowsAt
      (2_000_000 ∷ 500_000 ∷ [])
      (get "read" (observations (("read", 500_000) ∷ ("write", 7) ∷ ("read", 2_000_000) ∷ []) []))
observations-durations_of_example =
    observations-durations_of (("read", 500_000) ∷ ("write", 7) ∷ ("read", 2_000_000) ∷ []) "read"
