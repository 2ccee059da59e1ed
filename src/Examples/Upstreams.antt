-- ===== src/Examples/Upstreams.antt =====
-- Connections that go back to the pool.
use grunyas.Prelude.{◌≡◌, true, refl, inr, String, List, [], ◌∷◌}
use grunyas.Upstream.Reset.{
  ready_for_query, command_complete, error_response, other, Server, SessionClient, pooled, release,
}
use grunyas.Upstream.Clean.{release_clean, release_two_pending}

abbrev server : Server
server = record {
  on_sync = ready_for_query b'I' ∷ [];
  on_query = λ q. command_complete ∷ ready_for_query b'I' ∷ [];
  flush_works = true;
}

-- A connection that was cut off in a failed transaction, before the answer to its last query.
abbrev interrupted : SessionClient
interrupted = record {
  unread = other ∷ error_response ∷ ready_for_query b'E' ∷ [];
  tx_status = b'T';
  sent = [];
  discard_all = true;
}

release_clean_example :
    (s' : SessionClient) × (release server interrupted ≡ pooled s')
    × (s'.unread ≡ [])
    × ((earlier : List String) × (s'.sent ≡ "DISCARD ALL" ∷ earlier))
release_clean_example =
    release_clean server interrupted
      (
        refl,
        (b'I', refl),
        (command_complete ∷ [], b'I', refl, tt, refl, refl),
        (command_complete ∷ [], b'I', refl, tt, refl, refl),
      )
      (inr (other ∷ error_response ∷ [], b'E', refl, tt)) refl

-- A connection with the answers to two queries pending.
abbrev pipelined : SessionClient
pipelined = record {
  unread = command_complete ∷ ready_for_query b'I' ∷ command_complete ∷ ready_for_query b'I' ∷ [];
  tx_status = b'I';
  sent = [];
  discard_all = true;
}

release_two_pending_example :
    (s' : SessionClient) × (release server pipelined ≡ pooled s')
    × (s'.unread ≡ ready_for_query b'I' ∷ command_complete ∷ ready_for_query b'I' ∷ [])
release_two_pending_example =
    release_two_pending server pipelined (command_complete ∷ []) (command_complete ∷ []) b'I' refl
      refl tt tt refl refl refl
