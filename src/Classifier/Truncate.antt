-- ===== src/Classifier/Truncate.antt =====
-- `TruncateSQL` of internal/classifier/classifier.go.
use grunyas.Prelude.{
  ℕ, Bool, true, false, List, [], ◌∷◌, ◌++◌, map, ltb, ◌==◌, if◌then◌else◌, length,
}
use grunyas.Classifier.Text.{Text, is_space, take, trim_left}

-- strings.TrimRightFunc(s, unicode.IsSpace): a space is dropped if only spaces follow.
unfoldable pub trim_right : Text → Text
trim_right [] = []
trim_right (c ∷ s) =
    let t = trim_right s in elim t [ [] ↦ if is_space c then [] else c ∷ [] | d ∷ u ↦ c ∷ d ∷ u ]

-- strings.ReplaceAll(s, "\n", " ")
unfoldable pub newlines_to_spaces : Text → Text
newlines_to_spaces = map (λ c. if c == b'\n' then 32 else c)

abbrev pub extend_field : ℕ → List Text → List Text
extend_field c [] = (c ∷ []) ∷ []
extend_field c (f ∷ fs) = (c ∷ f) ∷ fs

abbrev pub starts_field : Text → Bool
starts_field [] = false
starts_field (c ∷ s) = if is_space c then false else true

-- strings.Fields(s)
unfoldable pub fields : Text → List Text
fields [] = []
fields (c ∷ s) =
    let fs = fields s in
    if is_space c then fs else if starts_field s then extend_field c fs else (c ∷ []) ∷ fs

-- strings.Join(parts, " ")
unfoldable pub join : List Text → Text
join [] = []
join (f ∷ fs) = elim fs [ [] ↦ f | g ∷ gs ↦ f ++ (32 ∷ join fs) ]

unfoldable pub truncate_sql : Text → ℕ → Text
unfolding trim_right newlines_to_spaces fields join trim_left
truncate_sql sql max_len =
    let cleaned = join (fields (newlines_to_spaces (trim_left (trim_right sql)))) in
    if ltb max_len (length cleaned) then take max_len cleaned else cleaned
