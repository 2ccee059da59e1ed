-- ===== src/Classifier/Verdicts.antt =====
-- What `Classify` promises, and a text that it takes for a read although PostgreSQL runs a write.
use grunyas.Prelude.{◌≡◌, ◌≢◌, refl, true, false, some, ◌++◌, arith, String, str_eq, eq_iff}
use grunyas.Prelude.Assoc
use grunyas.Prelude.Assoc.{Assoc, get-put, get-remove}
use grunyas.Classifier.Text.{Text, codes, trim_left, token, after_token}
use grunyas.Classifier.Scan.{
  strip, first_keyword, strip_loop, words_have_analyze, words_loop, explain_has_analyze,
  close_paren,
}
use grunyas.Classifier.Statement.{
  Traffic, Source, Class, SessionState, classify_by_keyword, classify, is_write_port, is_write_tx,
  forget, cached, remember,
}

-- The session can be told apart from the write port and a write transaction, and keeps a cache.
abbrev pub Caches : SessionState → Assoc Class → Type 0
Caches sess m =
    (is_write_port sess.port ≡ false)
    × (is_write_tx sess.tx_state ≡ false)
    × (sess.prepared ≡ some m)

-- The lookup of a name other than the empty one.
named_eq : (name : String) → name ≢ "" → str_eq name "" ≡ false
named_eq name named = ground (arith, eq_iff name "", named)

self_eq : (name : String) → str_eq name name ≡ true
self_eq name = (eq_iff name name).1 refl

-- A named statement keeps the class of its first text, whatever text it is later sent with, until
-- it is forgotten; then it is classed anew.
pub classify_cached :
    (name : String) (first later : Text) (sess : SessionState) (m : Assoc Class)
    → name ≢ ""
    → Caches sess m
    → let (c, sess') = classify (record { name = name; sql = first }) sess in
      (classify (record { name = name; sql = later }) sess' ≡ (c, sess'))
      × ((classify (record { name = name; sql = later }) (forget name sess')).0
          ≡ classify_by_keyword later)
unfolding classify forget cached remember
classify_cached name first later sess m named (port, tx, known) = (
  ground (
    arith,
    port,
    tx,
    known,
    named_eq name named,
    self_eq name,
    get-put name name (classify_by_keyword first) m,
  ),
  ground (
    arith,
    port,
    tx,
    known,
    named_eq name named,
    self_eq name,
    get-remove name name (Assoc.put name (classify_by_keyword first) m),
    get-remove name name m,
  ),
)

-- The options of EXPLAIN are searched for ANALYZE in the first 64 bytes of the text alone.
pub late_analyze_is_read :
    (tail : Text)
    → classify_by_keyword
        (codes "EXPLAIN (VERBOSE true, COSTS true, BUFFERS true, SUMMARY true, T" ++ tail)
      ≡ record { type = Traffic.read; source = Source.keyword }
unfolding classify_by_keyword first_keyword token strip strip_loop trim_left explain_has_analyze
    after_token close_paren words_have_analyze words_loop
late_analyze_is_read tail = refl
