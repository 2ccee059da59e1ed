-- ===== src/Examples/Statements.antt =====
-- Texts of statements.
use grunyas.Prelude.{
  String, ◌≡◌, ◌≢◌, ◌<◌, ◌≤◌, refl, some, [], ◌∷◌, ◌++◌, length, arith, eq_iff, true,
}
use grunyas.Classifier.Text.{Text, codes, after_pair}
use grunyas.Classifier.Scan.{
  strip, strip_loop, words_loop, words_have_analyze, list_loop, token_list_contains,
}
use grunyas.Classifier.Statement.{Port, TxState, SessionState, Statement, classify_by_keyword}
use grunyas.Classifier.LetterCase.{lower}
use grunyas.Classifier.Fuel.{scanners_terminate}
use grunyas.Classifier.AnyCase.{classify_any_case}
use grunyas.Classifier.Comments.{
  Prolog, nothing, blank, block, classify-Prolog, open_comment_is_skipped,
}

abbrev explain : Text
explain = codes "Explain (costs, ANALYZE) delete from t"

explain_fits : length explain < 64
explain_fits = omega arith

scanners_terminate_example :
    (strip_loop (codes "endless") 64 explain ≡ strip explain)
    × (words_loop true 64 explain ≡ words_have_analyze explain)
    × (list_loop true 64 (codes "analyze") (strip explain)
        ≡ token_list_contains explain (codes "analyze"))
scanners_terminate_example =
    scanners_terminate (codes "endless") true 64 (codes "analyze") explain explain_fits

abbrev commented : Text
commented = codes "-- a" ++ (10 ∷ codes " select 1")

classify_any_case_example : classify_by_keyword (lower explain) ≡ classify_by_keyword explain
classify_any_case_example = classify_any_case explain

abbrev select_one : Text
select_one = codes "SELECT 1"

abbrev prolog : Text
prolog = 47 ∷ 42 ∷ (codes " x " ++ 42 ∷ 47 ∷ 32 ∷ [])

prolog-Prolog : Prolog prolog
unfolding after_pair
prolog-Prolog = block (codes " x ") refl (blank 32 refl nothing)

prolog_fits : length (prolog ++ select_one) ≤ 64
prolog_fits = omega arith

classify-Prolog_example :
    classify_by_keyword (prolog ++ select_one) ≡ classify_by_keyword select_one
classify-Prolog_example = classify-Prolog select_one prolog-Prolog prolog_fits

abbrev on_write : SessionState
on_write = record { port = Port.write; tx_state = TxState.idle; prepared = some [] }

abbrev on_compat : SessionState
on_compat = record { port = Port.compat; tx_state = TxState.idle; prepared = some [] }

abbrev plan : Statement
plan = record { name = "plan"; sql = select_one }

abbrev Differ : String → String → Type 0
Differ s t = s ≢ t

named : Differ "plan" ""
named = λ e. absurd (ground (arith, (eq_iff "plan" "").1 e))

abbrev hidden : Text
hidden = codes "select */ delete from t"

hidden_fits : length hidden ≤ 61
hidden_fits = omega arith

open_comment_is_skipped_example :
    classify_by_keyword (codes "/*/" ++ hidden) ≡ classify_by_keyword hidden
open_comment_is_skipped_example = open_comment_is_skipped hidden hidden_fits
