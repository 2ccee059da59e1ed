-- ===== src/Classifier/Scan.antt =====
-- The scanners of internal/classifier/classifier.go. Each `for` loop takes fuel, and what it returns
-- when the fuel runs out. It starts with one more than the length of its text, which every round
-- shortens; the `[]` and `false` that the callers pass for an exhausted loop are never seen.
use Prim.Native.Nat.{zero, suc}
use grunyas.Prelude.{
  ℕ, ◌+◌, ◌-◌, Bool, true, false, ◌||◌, Option, none, some, [], ◌∷◌, ◌==◌, if◌then◌else◌, length,
  map,
}
use grunyas.Classifier.Text.{
  Text, codes, is_space, to_lower, text_eq, is_empty, take, trim_left, starts_with,
  starts_with_pair, rest, after, after_pair, token, after_token,
}

-- What a comment leaves: the loop goes on behind it, and an unclosed one ends the text.
abbrev continue : (Text → Text) → Option Text → Text
continue go none = []
continue go (some s) = go s

-- The loop of `stripCommentsAndWhitespace`.
unfoldable pub strip_loop : Text → ℕ → Text → Text
strip_loop out zero s = out
strip_loop out (suc f) s =
    let t = trim_left s in
    let line = continue (strip_loop out f) (after b'\n' t) in
    let block = continue (strip_loop out f) (after_pair b'*' b'/' t) in
    if starts_with_pair b'-' b'-' t then line else if starts_with_pair b'/' b'*' t then block else t

unfoldable pub strip : Text → Text
strip s = strip_loop [] (suc (length s)) s

-- unicode.IsSpace(r) || r == '(' || r == ';'
abbrev pub ends_keyword : ℕ → Bool
ends_keyword c = is_space c || (c == b'(' || c == b';')

-- unicode.IsSpace(r) || r == ',' || r == '(' || r == ')'
abbrev pub ends_option : ℕ → Bool
ends_option c = is_space c || (c == b',' || (c == b'(' || c == b')'))

-- The loop of `tokenListContains`.
unfoldable pub list_loop : Bool → ℕ → Text → Text → Bool
list_loop out zero target s = out
list_loop out (suc f) target s =
    let tok = map to_lower (token ends_option s) in
    let skip = list_loop out f target (strip (rest s)) in
    let next : Bool = elim (after b',' s) [
      | none ↦ false
      | some t ↦ list_loop out f target (strip t)
    ] in
    if is_empty s
    then false
    else if starts_with b',' s
    then skip
    else if is_empty tok
    then false
    else if text_eq tok target
    then true
    else next

unfoldable pub token_list_contains : Text → Text → Bool
token_list_contains list target = list_loop false (suc (length list)) target (strip list)

abbrev pub is_flag : Text → Bool
is_flag tok =
    text_eq tok (codes "verbose")
    || (text_eq tok (codes "costs")
        || (text_eq tok (codes "buffers")
            || (text_eq tok (codes "timing")
                || (text_eq tok (codes "summary")
                    || (text_eq tok (codes "format")
                        || (text_eq tok (codes "settings") || text_eq tok (codes "wal")))))))

-- The loop over the bare words behind EXPLAIN.
unfoldable pub words_loop : Bool → ℕ → Text → Bool
words_loop out zero s = out
words_loop out (suc f) s =
    let t = strip s in
    let tok = map to_lower (token ends_keyword t) in
    let next = words_loop out f (after_token ends_keyword t) in
    if is_empty t
    then false
    else if is_empty tok
    then false
    else if text_eq tok (codes "analyze")
    then true
    else if is_flag tok
    then next
    else false

unfoldable pub words_have_analyze : Text → Bool
words_have_analyze s = words_loop false (suc (length s)) s

-- The parentheses that are open behind a byte.
unfoldable pub depth_after : ℕ → ℕ → ℕ
depth_after c depth = if c == b'(' then depth + 1 else if c == b')' then depth - 1 else depth

abbrev pub push_inner : ℕ → Option (Text × Text) → Option (Text × Text)
push_inner c none = none
push_inner c (some (inner, tail)) = some (c ∷ inner, tail)

-- The scan for the closing parenthesis, from behind the opening one: what stands inside, and what
-- follows. `none` where the parentheses do not close.
unfoldable pub close_paren : ℕ → Text → Option (Text × Text)
unfolding depth_after
close_paren depth [] = none
close_paren depth (c ∷ s) =
    let more = push_inner c (close_paren (depth_after c depth) s) in
    if depth_after c depth == 0 then some ([], s) else more

-- The search behind an opening parenthesis, from the outcome of the scan for the closing one.
unfoldable pub options_have_analyze : Text → Option (Text × Text) → Bool
options_have_analyze s none = words_have_analyze s
options_have_analyze s (some (inner, tail)) =
    token_list_contains inner (codes "analyze") || words_have_analyze (strip tail)

unfoldable pub explain_has_analyze : Text → Bool
unfolding options_have_analyze
explain_has_analyze after_explain =
    let s = strip after_explain in
    if starts_with b'(' s
    then options_have_analyze s (close_paren 1 (rest s))
    else words_have_analyze s

-- The first keyword of a text with no comment in front, in lower case, and whether it is EXPLAIN
-- with ANALYZE.
unfoldable pub keyword_of : Text → Text × Bool
keyword_of s =
    let first = map to_lower (token ends_keyword s) in
    if is_empty first
    then ([], false)
    else if text_eq first (codes "explain")
    then (codes "explain", explain_has_analyze (after_token ends_keyword s))
    else (first, false)

unfoldable pub first_keyword : Text → Text × Bool
unfolding keyword_of
first_keyword sql = keyword_of (strip (take 64 sql))
