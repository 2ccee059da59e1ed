-- ===== src/Classifier/Statement.antt =====
-- `Classify` and the cache of prepared statements, of internal/classifier/classifier.go.
use grunyas.Prelude.{String, str_eq, Bool, true, false, ◌||◌, Option, none, some, [], if◌then◌else◌}
use grunyas.Prelude.Assoc
use grunyas.Prelude.Assoc.{Assoc}
use grunyas.Classifier.Text.{Text, codes, text_eq, is_empty}
use grunyas.Classifier.Scan.{first_keyword}

pub data Traffic : Type 0 where
  read write unknown : Traffic

pub data Source : Type 0 where
  port transaction_state keyword default : Source

pub record Class : Type 0 where
  pub type : Traffic
  pub source : Source

pub data TxState : Type 0 where
  idle in_transaction_read in_transaction_write in_failed_transaction : TxState

-- The strings that name a listen port; any other string is `other`.
pub data Port : Type 0 where
  write read compat : Port
  other : String → Port

-- `prepared` is a map that can be nil.
pub record SessionState : Type 0 where
  pub port : Port
  pub tx_state : TxState
  pub prepared : Option (Assoc Class)

pub record Statement : Type 0 where
  pub name : String
  pub sql : Text

abbrev pub is_read_keyword : Text → Bool
is_read_keyword k =
    text_eq k (codes "select")
    || (text_eq k (codes "show")
        || (text_eq k (codes "explain")
            || (text_eq k (codes "fetch") || text_eq k (codes "values"))))

unfoldable pub classify_by_keyword : Text → Class
classify_by_keyword sql =
    let (first, is_explain_analyze) = first_keyword sql in
    if is_empty first
    then record { type = Traffic.write; source = Source.default }
    else if is_explain_analyze
    then record { type = Traffic.write; source = Source.keyword }
    else if is_read_keyword first
    then record { type = Traffic.read; source = Source.keyword }
    else record { type = Traffic.write; source = Source.keyword }

abbrev pub is_write_port : Port → Bool
is_write_port Port.write = true
is_write_port _ = false

abbrev pub is_write_tx : TxState → Bool
is_write_tx in_transaction_write = true
is_write_tx _ = false

-- sess.Prepared[name], for a named statement and a map that is not nil.
unfoldable pub cached : Statement → SessionState → Option Class
cached stmt sess =
    if str_eq stmt.name ""
    then none
    else elim sess.prepared [ none ↦ none | some m ↦ Assoc.get stmt.name m ]

-- sess.Prepared[name] = result, under the same two conditions.
unfoldable pub remember : Statement → Class → SessionState → SessionState
remember stmt result sess = if str_eq stmt.name "" then sess else elim sess.prepared [
  | none ↦ sess
  | some m ↦ record sess { prepared = some (Assoc.put stmt.name result m) }
]

unfoldable pub classify : Statement → SessionState → Class × SessionState
unfolding cached remember
classify stmt sess =
    if is_write_port sess.port
    then (record { type = Traffic.write; source = Source.port }, sess)
    else if is_write_tx sess.tx_state
    then (record { type = Traffic.write; source = Source.transaction_state }, sess)
    else elim (cached stmt sess) [
      | some c ↦ (c, sess)
      | none ↦ let result = classify_by_keyword stmt.sql in (result, remember stmt result sess)
    ]

unfoldable pub forget : String → SessionState → SessionState
forget name sess = elim sess.prepared [
  | none ↦ sess
  | some m ↦ record sess { prepared = some (Assoc.remove name m) }
]

unfoldable pub forget_all : SessionState → SessionState
forget_all sess = elim sess.prepared [ none ↦ sess | some m ↦ record sess { prepared = some [] } ]
