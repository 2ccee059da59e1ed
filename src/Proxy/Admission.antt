-- ===== src/Proxy/Admission.antt =====
-- `handleNewIncomingConnection` and `canAcceptNewConnection` of internal/server/proxy/proxy.go. A
-- connection is handled in four parts, which those of other connections come between: it is let in or
-- refused, its session is entered, and, once the session has ended, taken out and no longer counted.
-- `starting` and `leaving` count the connections between the first two and between the last two. A session is its number, and no two have the same.
use Prim.Native.Nat.{zero, suc}
use grunyas.Prelude.{
  ℕ, ◌+◌, String, Bool, true, false, not, ◌||◌, List, [], ◌∷◌, ◌==◌, if◌then◌else◌,
}
use grunyas.Prelude.Int.{ℤ, pos, negsuc, ltb_ℤ}
use grunyas.Proxy.IdleSweeper.{IdleSweeper, Heap, track, untrack}

pub record Proxy : Type 0 where
  pub max_sessions : ℤ
  pub current_connections_count : ℤ
  pub lifetime_connections_count : ℕ
  pub starting : ℕ
  pub leaving : ℕ
  pub sessions : List ℕ
  pub idle : IdleSweeper

abbrev pub increment : ℤ → ℤ
increment (pos n) = pos (n + 1)
increment (negsuc zero) = pos 0
increment (negsuc (suc n)) = negsuc n

abbrev pub decrement : ℤ → ℤ
decrement (pos zero) = negsuc 0
decrement (pos (suc n)) = pos n
decrement (negsuc n) = negsuc (n + 1)

-- The loop of compare-and-swap is one step.
unfoldable pub can_accept_new_connection : Proxy → Bool × Proxy
can_accept_new_connection prx =
    if not (ltb_ℤ (pos 0) prx.max_sessions)
    then (true, prx)
    else if not (ltb_ℤ prx.current_connections_count prx.max_sessions)
    then (false, prx)
    else (true, record prx { current_connections_count = increment prx.current_connections_count })

-- What is sent to a connection before its session.
pub data Answer : Type 0 where
  fatal : String → String → Answer
  closed : Answer

unfoldable pub arrive : Bool → Proxy → List Answer × Proxy
unfolding can_accept_new_connection
arrive is_tcp prx =
    let (accepted, prx') = can_accept_new_connection prx in
    if not is_tcp
    then (closed ∷ [], prx)
    else if not accepted
    then (fatal "53300" "connection pool exhausted, please try again later" ∷ closed ∷ [], prx')
    else ([], record prx' { starting = prx'.starting + 1 })

abbrev pub is_member : ℕ → List ℕ → Bool
is_member x [] = false
is_member x (y ∷ ys) = x == y || is_member x ys

unfoldable pub delete : ℕ → List ℕ → List ℕ
delete x [] = []
delete x (y ∷ ys) = let rest = delete x ys in if x == y then ys else y ∷ rest

abbrev pub previous : ℕ → ℕ
previous zero = 0
previous (suc n) = n

module _ (arrange : Heap → Heap) where
  unfoldable pub enter : ℕ → ℕ → Proxy → Proxy
  unfolding track
  enter now sess prx = record prx {
    starting = previous prx.starting;
    idle = (track arrange now sess prx.idle).1;
    sessions = sess ∷ prx.sessions;
    lifetime_connections_count = prx.lifetime_connections_count + 1;
  }

  unfoldable pub leave : ℕ → Proxy → Proxy
  unfolding untrack delete
  leave sess prx = record prx {
    sessions = delete sess prx.sessions;
    idle = untrack arrange sess prx.idle;
    leaving = prx.leaving + 1;
  }

unfoldable pub release_slot : Proxy → Proxy
release_slot prx = record prx {
  leaving = previous prx.leaving;
  current_connections_count = decrement prx.current_connections_count;
}

pub data Step : Type 0 where
  arrives : Bool → Step
  enters : ℕ → ℕ → Step
  leaves : ℕ → Step
  releases : Step

-- Only a connection that was let in enters, under a new number, and only a session that is in leaves.
unfoldable pub steps : (Heap → Heap) → List Step → Proxy → Proxy
unfolding arrive enter leave release_slot
steps arrange [] prx = prx
steps arrange (arrives is_tcp ∷ ss) prx = steps arrange ss (arrive is_tcp prx).1
steps arrange (enters now sess ∷ ss) prx =
    steps arrange ss
      (if prx.starting == 0 || is_member sess prx.sessions then prx else enter arrange now sess prx)
steps arrange (leaves sess ∷ ss) prx =
    steps arrange ss (if is_member sess prx.sessions then leave arrange sess prx else prx)
steps arrange (releases ∷ ss) prx =
    steps arrange ss (if prx.leaving == 0 then prx else release_slot prx)

unfoldable pub initialize : ℤ → IdleSweeper → Proxy
initialize max_sessions idle = record {
  max_sessions = max_sessions;
  current_connections_count = pos 0;
  lifetime_connections_count = 0;
  starting = 0;
  leaving = 0;
  sessions = [];
  idle = idle;
}
