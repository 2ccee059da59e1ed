-- ===== src/Upstream/Reset.antt =====
-- internal/pool/upstream_client/session_client.go. A connection holds the messages of the server that
-- are not read yet. What the server will answer to Sync and to a query is a parameter, and is appended
-- when the request is flushed; a receive with nothing to read is the error of the deadline. The driver
-- keeps the status of the last ReadyForQuery that it read.
use grunyas.Prelude.{
  ℕ, String, Bool, true, false, not, Option, none, some, List, [], ◌∷◌, ◌++◌, ◌==◌, if◌then◌else◌,
  ◌>>=◌,
}

pub data BackendMessage : Type 0 where
  ready_for_query : ℕ → BackendMessage
  command_complete error_response other : BackendMessage

-- The answers of the server from now on.
pub record Server : Type 0 where
  pub on_sync : List BackendMessage
  pub on_query : String → List BackendMessage
  pub flush_works : Bool

pub record SessionClient : Type 0 where
  pub unread : List BackendMessage
  pub tx_status : ℕ
  pub sent : List String
  pub discard_all : Bool

abbrev pub arrived : List BackendMessage → SessionClient → SessionClient
arrived ms s = record s { unread = s.unread ++ ms }

-- The messages behind the next ReadyForQuery, with its status.
unfoldable pub drain : List BackendMessage → Option (ℕ × List BackendMessage)
drain [] = none
drain (ready_for_query status ∷ ms) = some (status, ms)
drain (command_complete ∷ ms) = drain ms
drain (error_response ∷ ms) = drain ms
drain (other ∷ ms) = drain ms

unfoldable pub drain_to_ready : SessionClient → Option SessionClient
unfolding drain
drain_to_ready s = elim (drain s.unread) [
  | none ↦ none
  | some (status, ms) ↦ some (record s { unread = ms; tx_status = status })
]

-- The loop of `simpleQuery`: `seen` is commandCompleteSeen and `failed` whether there is a queryErr.
-- The result is whether the query failed, the status and what is left.
unfoldable pub await :
    (seen failed : Bool) → List BackendMessage → Option (Bool × ℕ × List BackendMessage)
await seen failed [] = none
await true failed (ready_for_query status ∷ ms) = some (failed, status, ms)
await false failed (ready_for_query status ∷ ms) = await false failed ms
await seen failed (command_complete ∷ ms) = await true failed ms
await seen failed (error_response ∷ ms) = await true true ms
await seen failed (other ∷ ms) = await seen failed ms

abbrev pub accepted : SessionClient → Option (Bool × ℕ × List BackendMessage) → Option SessionClient
accepted s none = none
accepted s (some (failed, status, ms)) =
    if failed then none else some (record s { unread = ms; tx_status = status })

abbrev pub asked : Server → String → SessionClient → SessionClient
asked server query s = record s {
  unread = s.unread ++ server.on_query query;
  sent = query ∷ s.sent;
}

-- `none` is an error.
unfoldable pub simple_query : Server → String → SessionClient → Option SessionClient
unfolding await
simple_query server query s =
    if not server.flush_works
    then none
    else accepted (asked server query s) (await false false (asked server query s).unread)

-- Sync, whose errors are ignored.
unfoldable pub sync : Server → SessionClient → SessionClient
sync server s = if server.flush_works then arrived server.on_sync s else s

abbrev pub roll_back : Server → SessionClient → Option SessionClient
roll_back server s = if not (s.tx_status == b'I') then simple_query server "ROLLBACK" s else some s

abbrev pub discard : Server → SessionClient → Option SessionClient
discard server s = if s.discard_all then simple_query server "DISCARD ALL" s else some s

unfoldable pub reset : Server → SessionClient → Option SessionClient
unfolding sync drain_to_ready simple_query
reset server s = do
  drained ← drain_to_ready (sync server s)
  idle ← roll_back server drained
  discard server idle

-- What becomes of the connection.
pub data Fate : Type 0 where
  pooled : SessionClient → Fate
  killed : Fate

-- `Release`, and the session's `Kill` when it fails.
unfoldable pub release : Server → SessionClient → Fate
unfolding reset
release server s = elim (reset server s) [ none ↦ killed | some s' ↦ pooled s' ]
