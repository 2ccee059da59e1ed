-- ===== src/Upstream/Clean.antt =====
-- What a connection that internal/pool/upstream_client/session_client.go gives back has left to read.
use grunyas.Prelude.{
  append_assoc, ℕ, String, ◌≡◌, refl, ap, ◌∙◌, true, false, not, ◌⊎◌, inl, inr, some, List, [], ◌∷◌,
  ◌++◌, ◌==◌, if◌then◌else◌, if-holds, ◌>>=◌,
}
use grunyas.Upstream.Reset.{
  BackendMessage, ready_for_query, Server, SessionClient, drain, drain_to_ready, await, accepted,
  asked, arrived, simple_query, sync, roll_back, discard, reset, pooled, release,
}
use grunyas.Upstream.Reading.{
  IsBody, whole_answer, completes, fails, drain-answer, await-whole_answer, await-stale,
}

-- The answer to a query that succeeds.
abbrev pub IsSuccess : List BackendMessage → Type 0
IsSuccess ms =
    (body : List BackendMessage) × (status : ℕ) × (ms ≡ whole_answer body status)
    × IsBody body
    × (completes body ≡ true)
    × (fails body ≡ false)

-- A server that answers: to Sync with a ReadyForQuery alone, and to both queries with success.
abbrev pub IsConforming : Server → Type 0
IsConforming server =
    (server.flush_works ≡ true)
    × ((n : ℕ) × (server.on_sync ≡ ready_for_query n ∷ []))
    × IsSuccess (server.on_query "ROLLBACK")
    × IsSuccess (server.on_query "DISCARD ALL")

-- Nothing to read, or one ReadyForQuery.
abbrev IsQuiet : List BackendMessage → Type 0
IsQuiet ms = (ms ≡ []) ⊎ ((n : ℕ) × (ms ≡ ready_for_query n ∷ []))

await_quiet :
    (ms : List BackendMessage) (body : List BackendMessage) (status : ℕ)
    → IsQuiet ms
    → IsBody body
    → completes body ≡ true
    → await false false (ms ++ whole_answer body status) ≡ some (fails body, status, [])
await_quiet ms body status (inl e) b c = rw e (await-whole_answer body status [] b c)
await_quiet ms body status (inr (n, e)) b c =
    rw e
      (await-stale [] n (whole_answer body status) tt refl ∙ await-whole_answer body status [] b c)

completed :
    (server : Server) (query : String) (s : SessionClient) (status : ℕ) (rest : List BackendMessage)
    → server.flush_works ≡ true
    → await false false (s.unread ++ server.on_query query) ≡ some (false, status, rest)
    → simple_query server query s
      ≡ some (record s { unread = rest; tx_status = status; sent = query ∷ s.sent })
unfolding simple_query
completed server query s status rest f r = rw f (ap (accepted (asked server query s)) r)

-- A query on a quiet connection reads its own answer, and leaves nothing.
query_quiet :
    (server : Server) (query : String) (s : SessionClient)
    → server.flush_works ≡ true
    → IsSuccess (server.on_query query)
    → IsQuiet s.unread
    → (n : ℕ) × (simple_query server query s
        ≡ some (record s { unread = []; tx_status = n; sent = query ∷ s.sent }))
query_quiet server query s f (body, status, e, b, c, o) q =
    let r : await false false (s.unread ++ server.on_query query) ≡ some (false, status, []) =
      ap (λ l. await false false (s.unread ++ l)) e
      ∙ (await_quiet s.unread body status q b c ∙ ap (λ x. some (x, status, [])) o) in
    (status, completed server query s status [] f r)

-- Nothing to read, or one whole answer.
abbrev pub IsPending : List BackendMessage → Type 0
IsPending ms =
    (ms ≡ [])
    ⊎ ((body : List BackendMessage) × (status : ℕ) × (ms ≡ whole_answer body status) × IsBody body)

-- Sync and the drain leave a quiet connection.
drained-IsQuiet :
    (s : SessionClient) (n : ℕ)
    → IsPending s.unread
    → (l : List BackendMessage) × (m : ℕ) × IsQuiet l
      × (drain_to_ready (arrived (ready_for_query n ∷ []) s)
          ≡ some (record s { unread = l; tx_status = m }))
unfolding drain_to_ready drain
drained-IsQuiet s n (inl e) = ([], n, inl refl, rw e refl)
drained-IsQuiet s n (inr (body, status, e, b)) =
    let p : drain (s.unread ++ (ready_for_query n ∷ [])) ≡ some (status, ready_for_query n ∷ []) =
      ap (λ l. drain (l ++ (ready_for_query n ∷ []))) e
      ∙ (ap drain (append_assoc body (ready_for_query status ∷ []) (ready_for_query n ∷ []))
          ∙ drain-answer body status (ready_for_query n ∷ []) b) in
    (ready_for_query n ∷ [], status, inr (n, refl), rw (p, drain_to_ready) refl)

rolled-IsQuiet :
    (server : Server) (s : SessionClient)
    → IsConforming server
    → IsQuiet s.unread
    → (s' : SessionClient) × (roll_back server s ≡ some s')
      × IsQuiet s'.unread
      × (s'.discard_all ≡ s.discard_all)
rolled-IsQuiet server s (f, _, r, _) q =
    if-holds
      (λ o.
        (s' : SessionClient) × (o ≡ some s') × IsQuiet s'.unread × (s'.discard_all ≡ s.discard_all))
      (not (s.tx_status == b'I'))
      (λ e. let p = query_quiet server "ROLLBACK" s f r q in (_, p.1, inl refl, refl))
      (λ e. (s, refl, q, refl))

released :
    (server : Server) (s drained idle done : SessionClient)
    → drain_to_ready (sync server s) ≡ some drained
    → roll_back server drained ≡ some idle
    → discard server idle ≡ some done
    → release server s ≡ pooled done
unfolding release reset
released server s drained idle done e u z = rw (e, u, z, release, reset, ◌>>=◌) refl

synced :
    (server : Server) (s : SessionClient)
    → server.flush_works ≡ true
    → sync server s ≡ arrived server.on_sync s
unfolding sync
synced server s f = rw f refl

-- With at most one answer pending, and a server that answers both queries with success, a release
-- with DISCARD ALL gives back a connection with nothing left to read, and DISCARD ALL is the last
-- query that it sent.
pub release_clean :
    (server : Server) (s : SessionClient)
    → IsConforming server
    → IsPending s.unread
    → s.discard_all ≡ true
    → (s' : SessionClient) × (release server s ≡ pooled s')
      × (s'.unread ≡ [])
      × ((earlier : List String) × (s'.sent ≡ "DISCARD ALL" ∷ earlier))
release_clean server s (f, (n, y), r, d) p a =
    let (l, m, q, e) = drained-IsQuiet s n p in
    let first : SessionClient = record s { unread = l; tx_status = m } in
    let (t, u, v, w) = rolled-IsQuiet server first (f, (n, y), r, d) q in
    let (k, z) = query_quiet server "DISCARD ALL" t f d v in
    let last : SessionClient = record t {
      unread = [];
      tx_status = k;
      sent = "DISCARD ALL" ∷ t.sent;
    } in
    (
      last,
      released server s first t last
          (ap drain_to_ready (synced server s f ∙ ap (λ l. arrived l s) y) ∙ e) u
          (ap (λ b. if b then simple_query server "DISCARD ALL" t else some t) (w ∙ a) ∙ z),
      refl,
      (t.sent, refl),
    )

drained_first :
    (s : SessionClient) (first rest y : List BackendMessage) (n : ℕ)
    → s.unread ≡ first ++ (ready_for_query n ∷ rest)
    → IsBody first
    → drain_to_ready (arrived y s) ≡ some (record s { unread = rest ++ y; tx_status = n })
unfolding drain_to_ready
drained_first s first rest y n e b =
    let p : drain (s.unread ++ y) ≡ some (n, rest ++ y) =
      ap (λ l. drain (l ++ y)) e
      ∙ (ap drain (append_assoc first (ready_for_query n ∷ rest) y)
          ∙ drain-answer first n (rest ++ y) b) in
    rw (p, drain_to_ready) refl

await_second :
    (second y z : List BackendMessage) (status : ℕ)
    → IsBody second
    → completes second ≡ true
    → fails second ≡ false
    → await false false ((whole_answer second status ++ y) ++ z) ≡ some (false, status, y ++ z)
await_second second y z status b c ok =
    ap (await false false) (
      append_assoc (whole_answer second status) y z
      ∙ append_assoc second (ready_for_query status ∷ []) (y ++ z))
    ∙ (await-whole_answer second status (y ++ z) b c ∙ ap (λ x. some (x, status, y ++ z)) ok)

-- With two answers pending, the first of an idle connection and the second of a query that succeeded,
-- the second is taken for that to DISCARD ALL: the connection goes back to the pool with the answers
-- to Sync and to DISCARD ALL left to read.
pub release_two_pending :
    (server : Server) (s : SessionClient) (first second : List BackendMessage) (status : ℕ)
    → server.flush_works ≡ true
    → s.unread ≡ first ++ (ready_for_query b'I' ∷ whole_answer second status)
    → IsBody first
    → IsBody second
    → completes second ≡ true
    → fails second ≡ false
    → s.discard_all ≡ true
    → (s' : SessionClient) × (release server s ≡ pooled s')
      × (s'.unread ≡ server.on_sync ++ server.on_query "DISCARD ALL")
release_two_pending server s first second status f e bf bs c ok a =
    let left = whole_answer second status ++ server.on_sync in
    let idle : SessionClient = record s { unread = left; tx_status = b'I' } in
    let rest = server.on_sync ++ server.on_query "DISCARD ALL" in
    let last : SessionClient = record s {
      unread = rest;
      tx_status = status;
      sent = "DISCARD ALL" ∷ s.sent;
    } in
    let d : discard server idle ≡ some last =
      ap (λ b. if b then simple_query server "DISCARD ALL" idle else some idle) a
      ∙ completed server "DISCARD ALL" idle status rest f
          (await_second second server.on_sync (server.on_query "DISCARD ALL") status bs c ok) in
    (
      last,
      released server s idle idle last
          (ap drain_to_ready (synced server s f)
            ∙ drained_first s first (whole_answer second status) server.on_sync b'I' e bf)
          refl d,
      refl,
    )
