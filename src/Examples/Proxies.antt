-- ===== src/Examples/Proxies.antt =====
-- A heap of idle sessions as a list with the first deadline in front, and a proxy with two sessions.
use grunyas.Prelude.{
  ℕ, ◌≤◌, ◌≡◌, refl, Bool, true, List, [], ◌∷◌, ltb, leb, ◌==◌, if◌then◌else◌, All, arith, if-holds,
}
use grunyas.Prelude.Int.{pos}
use grunyas.Proxy.IdleSweeper.{
  IdleEntry, Heap, Call, tracked, untracked, calls, expire, new_idle_sweeper,
}
use grunyas.Proxy.Expired.{tally, IsHeaded, IsSettled, expire-calls}
use grunyas.Proxy.Admission.{
  Step, arrives, enters, leaves, releases, steps, initialize, can_accept_new_connection,
}
use grunyas.Proxy.Counted.{live, sessions_within_limit}

-- A heap whose root is first.
sift : IdleEntry → Heap → Heap
sift e [] = e ∷ []
sift e (m ∷ ms) = if leb e.deadline m.deadline then e ∷ m ∷ ms else m ∷ e ∷ ms

arranged : Heap → Heap
unfolding sift
arranged [] = []
arranged (e ∷ es) = sift e (arranged es)

tally-sift :
    (p : IdleEntry → Bool) (e : IdleEntry) (h : Heap) → tally p (sift e h) ≡ tally p (e ∷ h)
unfolding sift tally
tally-sift p e [] = refl
tally-sift p e (m ∷ ms) =
    if-holds (λ (h : Heap). tally p h ≡ tally p (e ∷ m ∷ ms)) (leb e.deadline m.deadline)
      (λ b. refl) (λ b. ground arith)

tally-arranged : (p : IdleEntry → Bool) (h : Heap) → tally p (arranged h) ≡ tally p h
unfolding arranged tally
tally-arranged p [] = refl
tally-arranged p (e ∷ es) = ground (arith, tally-sift p e (arranged es), tally-arranged p es)

each_later :
    (a b : ℕ) (h : Heap) → a ≤ b → All (λ f. b ≤ f.deadline) h → All (λ f. a ≤ f.deadline) h
each_later a b [] l q = tt
each_later a b (e ∷ es) l (p, q) = (omega (arith, l, p), each_later a b es l q)

sift-IsHeaded : (e : IdleEntry) (h : Heap) → IsHeaded h → IsHeaded (sift e h)
unfolding sift
sift-IsHeaded e [] o = tt
sift-IsHeaded e (m ∷ ms) o =
    if-holds IsHeaded (leb e.deadline m.deadline)
      (λ b.
        let l : e.deadline ≤ m.deadline = ground (arith, b) in
        (l, each_later e.deadline m.deadline ms l o))
      (λ b. (ground (arith, b), o))

arranged-IsHeaded : (h : Heap) → IsHeaded (arranged h)
unfolding arranged
arranged-IsHeaded [] = tt
arranged-IsHeaded (e ∷ es) = sift-IsHeaded e (arranged es) (arranged-IsHeaded es)

-- Session 1 was last active at 9, session 2 at 3.
abbrev active : ℕ → ℕ
active sess = if sess == 1 then 9 else 3

abbrev arrivals : List Call
arrivals = tracked 2 1 ∷ tracked 3 2 ∷ tracked 4 3 ∷ untracked 5 3 ∷ []

expire-calls_example :
    let is = calls arranged arrivals (new_idle_sweeper 5) in
    let (expired, after) = expire arranged 10 active is in
    IsSettled 10 5 active 2 is.heap (expired, after.heap)
expire-calls_example =
    expire-calls arranged tally-arranged arranged-IsHeaded 5 arrivals 10 2 active refl

abbrev rush : List Step
rush =
    arrives true ∷ arrives true ∷ enters 1 7 ∷ arrives true ∷ enters 2 8 ∷ leaves 7 ∷ releases ∷ []

sessions_within_limit_example :
    let prx = steps arranged rush (initialize (pos 2) (new_idle_sweeper 5)) in
    (prx.current_connections_count ≡ pos (live prx))
    × (live prx ≤ 2)
    × ((can_accept_new_connection prx).0 ≡ ltb (live prx) 2)
sessions_within_limit_example =
    sessions_within_limit arranged 2 (new_idle_sweeper 5) rush (omega arith)
