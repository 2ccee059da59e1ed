-- ===== src/Admin/Redacted.antt =====
-- What the redaction of internal/admin/admin.go hides.
use grunyas.Prelude.{ℕ, String, ◌≡◌, ◌≢◌, refl, ap, arith, eq_iff}
use grunyas.Admin.Redact.{
  Json, Elements, Entries, slice, json_map, text, element, no_elements, no_entries, entry,
  walk_redact, redact_elements, redact_entries, delete_key, mask, redact_entry, strip_tokens,
  redact_config,
}

-- Entries that differ only in what stands under "tokens", if anything does.
pub data OnlyTokens : Entries → Entries → Type 0 where
  ended : OnlyTokens no_entries no_entries
  left_token : (v : Json) (m n : Entries) → OnlyTokens m n → OnlyTokens (entry "tokens" v m) n
  right_token : (v : Json) (m n : Entries) → OnlyTokens m n → OnlyTokens m (entry "tokens" v n)
  shared :
      (k : String) (v : Json) (m n : Entries)
      → OnlyTokens m n
      → OnlyTokens (entry k v m) (entry k v n)

-- Values that differ only in secrets: a text under "password" that is not empty, and what stands under
-- "tokens" in a map under "admin_tokens". These may be at any depth, though not inside the value of
-- either key.
mutual
  pub data Alike : Json → Json → Type 0 where
    same : (v : Json) → Alike v v
    arrays : (xs ys : Elements) → AlikeElements xs ys → Alike (slice xs) (slice ys)
    objects : (m n : Entries) → AlikeEntries m n → Alike (json_map m) (json_map n)

  pub data AlikeElements : Elements → Elements → Type 0 where
    no_more : AlikeElements no_elements no_elements
    each :
        (v w : Json) (xs ys : Elements)
        → Alike v w
        → AlikeElements xs ys
        → AlikeElements (element v xs) (element w ys)

  pub data AlikeEntries : Entries → Entries → Type 0 where
    ended : AlikeEntries no_entries no_entries
    passwords :
        (s t : String) (m n : Entries)
        → s ≢ ""
        → t ≢ ""
        → AlikeEntries m n
        → AlikeEntries (entry "password" (text s) m) (entry "password" (text t) n)
    tokens :
        (a b m n : Entries)
        → OnlyTokens a b
        → AlikeEntries m n
        → AlikeEntries (entry "admin_tokens" (json_map a) m) (entry "admin_tokens" (json_map b) n)
    equal_entry :
        (k : String) (v : Json) (m n : Entries)
        → AlikeEntries m n
        → AlikeEntries (entry k v m) (entry k v n)
    inner :
        (k : String) (v w : Json) (m n : Entries)
        → k ≢ "password"
        → k ≢ "admin_tokens"
        → Alike v w
        → AlikeEntries m n
        → AlikeEntries (entry k v m) (entry k w n)

delete_key-OnlyTokens :
    (m n : Entries) → OnlyTokens m n → delete_key "tokens" m ≡ delete_key "tokens" n
unfolding delete_key
delete_key-OnlyTokens _ _ OnlyTokens.ended = refl
delete_key-OnlyTokens _ _ (left_token v m n r) = delete_key-OnlyTokens m n r
delete_key-OnlyTokens _ _ (right_token v m n r) = delete_key-OnlyTokens m n r
delete_key-OnlyTokens _ _ (shared k v m n r) = rw (delete_key-OnlyTokens m n r) refl

mask-text : (s : String) → s ≢ "" → mask (text s) ≡ text "***"
unfolding mask
mask-text s h = ground (arith, h, eq_iff s "")

entry_walked :
    (count : ℕ) (k : String) (val walked : Json)
    → k ≢ "password"
    → k ≢ "admin_tokens"
    → redact_entry count k val walked ≡ walked
unfolding redact_entry
entry_walked count k val walked p a =
    ground (arith, p, a, eq_iff k "password", eq_iff k "admin_tokens")

mutual
  unfolding walk_redact redact_entry strip_tokens

  walk_redact-Alike :
      (count : ℕ) (v w : Json) → Alike v w → walk_redact count v ≡ walk_redact count w
  walk_redact-Alike count _ _ (same v) = refl
  walk_redact-Alike count _ _ (arrays xs ys r) =
      ap slice (redact_elements-AlikeElements count xs ys r)
  walk_redact-Alike count _ _ (objects m n r) =
      ap json_map (redact_entries-AlikeEntries count m n r)

  redact_elements-AlikeElements :
      (count : ℕ) (xs ys : Elements)
      → AlikeElements xs ys
      → redact_elements count xs ≡ redact_elements count ys
  redact_elements-AlikeElements count _ _ no_more = refl
  redact_elements-AlikeElements count _ _ (each v w xs ys h r) =
      rw (walk_redact-Alike count v w h, redact_elements-AlikeElements count xs ys r) refl

  redact_entries-AlikeEntries :
      (count : ℕ) (m n : Entries)
      → AlikeEntries m n
      → redact_entries count m ≡ redact_entries count n
  redact_entries-AlikeEntries count _ _ AlikeEntries.ended = refl
  redact_entries-AlikeEntries count _ _ (passwords s t m n p q r) =
      rw (mask-text s p, mask-text t q, redact_entries-AlikeEntries count m n r) refl
  redact_entries-AlikeEntries count _ _ (tokens a b m n d r) =
      rw (delete_key-OnlyTokens a b d, redact_entries-AlikeEntries count m n r) refl
  redact_entries-AlikeEntries count _ _ (equal_entry k v m n r) =
      rw (redact_entries-AlikeEntries count m n r) refl
  redact_entries-AlikeEntries count _ _ (inner k v w m n p a h r) =
      rw (walk_redact-Alike count v w h, redact_entries-AlikeEntries count m n r)
        (rw
          (
            entry_walked count k v (walk_redact count w) p a,
            entry_walked count k w (walk_redact count w) p a,
          )
          refl)

-- Two configurations that differ only in passwords that are not empty and in the admin tokens, neither
-- of them inside the value of "password" or "admin_tokens", are redacted to the same value, for the
-- same number of tokens.
pub redact_config-Alike :
    (count : ℕ) (m n : Json) → Alike m n → redact_config count m ≡ redact_config count n
unfolding redact_config
redact_config-Alike = walk_redact-Alike
