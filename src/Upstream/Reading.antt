-- ===== src/Upstream/Reading.antt =====
-- How internal/pool/upstream_client/session_client.go reads answers: each ends in one ReadyForQuery.
use grunyas.Prelude.{ℕ, ◌≡◌, refl, Bool, true, false, ◌||◌, some, List, [], ◌∷◌, ◌++◌}
use grunyas.Upstream.Reset.{
  BackendMessage, ready_for_query, command_complete, error_response, other, drain, await,
}

-- Messages with no ReadyForQuery among them.
abbrev pub IsBody : List BackendMessage → Type 0
IsBody [] = Unit
IsBody (ready_for_query status ∷ ms) = ⊥
IsBody (m ∷ ms) = IsBody ms

-- A complete answer.
abbrev pub whole_answer : List BackendMessage → ℕ → List BackendMessage
whole_answer body status = body ++ (ready_for_query status ∷ [])

-- Whether a body completes a query, and whether it reports an error.
abbrev pub completes : List BackendMessage → Bool
completes [] = false
completes (command_complete ∷ ms) = true
completes (error_response ∷ ms) = true
completes (m ∷ ms) = completes ms

abbrev pub fails : List BackendMessage → Bool
fails [] = false
fails (error_response ∷ ms) = true
fails (m ∷ ms) = fails ms

pub drain-answer :
    (body : List BackendMessage) (status : ℕ) (rest : List BackendMessage)
    → IsBody body
    → drain (body ++ (ready_for_query status ∷ rest)) ≡ some (status, rest)
unfolding drain
drain-answer [] status rest b = refl
drain-answer (ready_for_query n ∷ ms) status rest b = absurd b
drain-answer (command_complete ∷ ms) status rest b = drain-answer ms status rest b
drain-answer (error_response ∷ ms) status rest b = drain-answer ms status rest b
drain-answer (other ∷ ms) status rest b = drain-answer ms status rest b

seen-whole_answer :
    (failed : Bool) (body : List BackendMessage) (status : ℕ) (rest : List BackendMessage)
    → IsBody body
    → await true failed (body ++ (ready_for_query status ∷ rest))
      ≡ some (failed || fails body, status, rest)
unfolding await
seen-whole_answer true [] status rest b = refl
seen-whole_answer false [] status rest b = refl
seen-whole_answer failed (ready_for_query n ∷ ms) status rest b = absurd b
seen-whole_answer failed (command_complete ∷ ms) status rest b =
    seen-whole_answer failed ms status rest b
seen-whole_answer true (error_response ∷ ms) status rest b = seen-whole_answer true ms status rest b
seen-whole_answer false (error_response ∷ ms) status rest b =
    seen-whole_answer true ms status rest b
seen-whole_answer failed (other ∷ ms) status rest b = seen-whole_answer failed ms status rest b

-- An answer that completes a query is taken for the query's, whichever it belongs to.
pub await-whole_answer :
    (body : List BackendMessage) (status : ℕ) (rest : List BackendMessage)
    → IsBody body
    → completes body ≡ true
    → await false false (body ++ (ready_for_query status ∷ rest)) ≡ some (fails body, status, rest)
unfolding await
await-whole_answer [] status rest b c = cc
await-whole_answer (ready_for_query n ∷ ms) status rest b c = absurd b
await-whole_answer (command_complete ∷ ms) status rest b c =
    seen-whole_answer false ms status rest b
await-whole_answer (error_response ∷ ms) status rest b c = seen-whole_answer true ms status rest b
await-whole_answer (other ∷ ms) status rest b c = await-whole_answer ms status rest b c

-- An answer without a completion, as that to Sync, is passed over.
pub await-stale :
    (body : List BackendMessage) (status : ℕ) (rest : List BackendMessage)
    → IsBody body
    → completes body ≡ false
    → await false false (body ++ (ready_for_query status ∷ rest)) ≡ await false false rest
unfolding await
await-stale [] status rest b c = refl
await-stale (ready_for_query n ∷ ms) status rest b c = absurd b
await-stale (command_complete ∷ ms) status rest b c = cc
await-stale (error_response ∷ ms) status rest b c = cc
await-stale (other ∷ ms) status rest b c = await-stale ms status rest b c
