-- ===== src/Classifier/Text.antt =====
-- SQL texts, and what internal/classifier/classifier.go uses of Go's `strings` and `unicode`.
-- A text is the list of its bytes. Texts are ASCII: a byte from 128 on is no space and no letter
-- here, where Go would decode a rune.
use Prim.Native.Char.{code}
use Prim.Native.Nat.{zero, suc}
use grunyas.Prelude.{
  ℕ, ◌+◌, String, Bool, true, false, ◌&&◌, ◌||◌, Option, none, some, List, [], ◌∷◌, leb, ◌==◌,
  if◌then◌else◌,
}

abbrev pub Text : Type 0
Text = List ℕ

-- The bytes of an ASCII literal.
abbrev pub codes : String → Text
codes String.[] = []
codes (String.◌∷◌ c s) = code c ∷ codes s

-- unicode.IsSpace
abbrev pub is_space : ℕ → Bool
is_space c = (leb 9 c && leb c 13) || c == 32

-- unicode.ToLower
abbrev pub to_lower : ℕ → ℕ
to_lower c = if leb 65 c && leb c 90 then c + 32 else c

abbrev pub text_eq : Text → Text → Bool
text_eq [] [] = true
text_eq [] (d ∷ t) = false
text_eq (c ∷ s) [] = false
text_eq (c ∷ s) (d ∷ t) = c == d && text_eq s t

abbrev pub is_empty : Text → Bool
is_empty [] = true
is_empty (c ∷ s) = false

-- s[:n]
abbrev pub take : ℕ → Text → Text
take zero s = []
take (suc n) [] = []
take (suc n) (c ∷ s) = c ∷ take n s

-- strings.TrimLeftFunc(s, unicode.IsSpace)
unfoldable pub trim_left : Text → Text
trim_left [] = []
trim_left (c ∷ s) = if is_space c then trim_left s else c ∷ s

-- strings.HasPrefix for prefixes of one and two bytes.
abbrev pub starts_with : ℕ → Text → Bool
starts_with a [] = false
starts_with a (c ∷ s) = c == a

abbrev pub starts_with_pair : ℕ → ℕ → Text → Bool
starts_with_pair a b [] = false
starts_with_pair a b (c ∷ s) = c == a && starts_with b s

abbrev pub rest : Text → Text
rest [] = []
rest (c ∷ s) = s

-- s[strings.Index(s, sep)+1:], and `none` where the index is -1.
unfoldable pub after : ℕ → Text → Option Text
after sep [] = none
after sep (c ∷ s) = if c == sep then some s else after sep s

-- s[strings.Index(s, "*/")+2:]
unfoldable pub after_pair : ℕ → ℕ → Text → Option Text
after_pair a b [] = none
after_pair a b (c ∷ s) = if c == a && starts_with b s then some (rest s) else after_pair a b s

-- s[:idx] and s[idx:] for idx = strings.IndexFunc(s, stop), or len(s) where that is -1.
unfoldable pub token : (ℕ → Bool) → Text → Text
token stop [] = []
token stop (c ∷ s) = if stop c then [] else c ∷ token stop s

unfoldable pub after_token : (ℕ → Bool) → Text → Text
after_token stop [] = []
after_token stop (c ∷ s) = if stop c then c ∷ s else after_token stop s
