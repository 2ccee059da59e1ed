-- ===== src/Admin/Redact.antt =====
-- The redaction of internal/admin/admin.go. The configuration is the JSON value that `handleConfig`
-- decodes; the keys of a map are visited in the order of its fields.
use grunyas.Prelude.{ℕ, String, str_eq, Bool, if◌then◌else◌}

mutual
  pub data Json : Type 0 where
    json_map : Entries → Json
    slice : Elements → Json
    text : String → Json
    float : ℕ → Json
    boolean : Bool → Json
    nil : Json

  pub data Entries : Type 0 where
    no_entries : Entries
    entry : (key : String) → (val : Json) → Entries → Entries

  pub data Elements : Type 0 where
    no_elements : Elements
    element : Json → Elements → Elements

-- delete(m, key)
unfoldable pub delete_key : String → Entries → Entries
delete_key key no_entries = no_entries
delete_key key (entry k v rest) =
    let rest' = delete_key key rest in if str_eq k key then rest' else entry k v rest'

-- m[key] = value
unfoldable pub assign : String → Json → Entries → Entries
assign key value no_entries = entry key value no_entries
assign key value (entry k v rest) =
    let rest' = assign key value rest in
    if str_eq k key then entry k value rest else entry k v rest'

-- The value of the key "password".
unfoldable pub mask : Json → Json
mask (text s) = if str_eq s "" then text s else text "***"
mask v = v

-- The value of the key "admin_tokens"; `count` is len(tokenHashes).
unfoldable pub strip_tokens : ℕ → Json → Json
unfolding delete_key assign
strip_tokens count (json_map m) =
    json_map (assign "token_count" (float count) (delete_key "tokens" m))
strip_tokens count v = v

-- The switch on the key; `walked` is what `walkRedact` makes of the value.
unfoldable pub redact_entry : ℕ → String → (val walked : Json) → Json
unfolding mask strip_tokens
redact_entry count k val walked =
    if str_eq k "password"
    then mask val
    else if str_eq k "admin_tokens"
    then strip_tokens count val
    else walked

unfoldable mutual
  unfolding redact_entry

  pub walk_redact : ℕ → Json → Json
  walk_redact count nil = nil
  walk_redact count (boolean b) = boolean b
  walk_redact count (float n) = float n
  walk_redact count (text s) = text s
  walk_redact count (slice xs) = slice (redact_elements count xs)
  walk_redact count (json_map m) = json_map (redact_entries count m)

  pub redact_elements : ℕ → Elements → Elements
  redact_elements count no_elements = no_elements
  redact_elements count (element v xs) = element (walk_redact count v) (redact_elements count xs)

  pub redact_entries : ℕ → Entries → Entries
  redact_entries count no_entries = no_entries
  redact_entries count (entry k v m) =
      entry k (redact_entry count k v (walk_redact count v)) (redact_entries count m)

unfoldable pub redact_config : ℕ → Json → Json
unfolding walk_redact
redact_config count m = walk_redact count m
