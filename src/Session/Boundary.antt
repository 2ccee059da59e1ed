-- ===== src/Session/Boundary.antt =====
-- `isTransactionStart`, `isCommit` and `isRollback` of internal/server/session/session.go.
use grunyas.Prelude.{Bool, true, false, ◌||◌, [], ◌∷◌, map, ◌==◌, if◌then◌else◌}
use grunyas.Classifier.Text.{Text, codes, to_lower, text_eq, trim_left}
use grunyas.Classifier.Truncate.{trim_right}

-- strings.HasPrefix(s, prefix)
unfoldable pub has_prefix : Text → Text → Bool
has_prefix [] s = true
has_prefix (c ∷ prefix) [] = false
has_prefix (c ∷ prefix) (d ∷ s) = if d == c then has_prefix prefix s else false

-- strings.TrimSpace(strings.ToLower(sql))
unfoldable pub normalized : Text → Text
unfolding trim_left trim_right
normalized sql = trim_left (trim_right (map to_lower sql))

-- s == word || strings.HasPrefix(s, word+" "); `spaced` is the word with the space.
unfoldable pub is_word : Text → Text → Text → Bool
unfolding has_prefix
is_word word spaced s = text_eq s word || has_prefix spaced s

unfoldable pub is_transaction_start : Text → Bool
unfolding normalized is_word
is_transaction_start sql =
    let s = normalized sql in
    is_word (codes "begin") (codes "begin ") s
    || is_word (codes "start transaction") (codes "start transaction ") s

unfoldable pub is_commit : Text → Bool
unfolding normalized is_word
is_commit sql = is_word (codes "commit") (codes "commit ") (normalized sql)

unfoldable pub is_rollback : Text → Bool
unfolding normalized is_word
is_rollback sql = is_word (codes "rollback") (codes "rollback ") (normalized sql)
