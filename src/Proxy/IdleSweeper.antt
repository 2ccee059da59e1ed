-- ===== src/Proxy/IdleSweeper.antt =====
-- internal/server/proxy/idle_sweeper.go. A session is its number and is tracked once, so that the map
-- `entries` holds for each session its entry of the heap. `arrange` is container/heap over the methods
-- Less, Swap, Push and Pop of the file, which puts an entry with the first deadline in front after any
-- change; the indexes that Swap, Push and Pop keep for `heap.Remove` are left to it. Times are nanoseconds, and a timeout that is not
-- positive is 0.
use Prim.Native.Nat.{zero, suc}
use grunyas.Prelude.{
  ℕ, ◌+◌, Bool, true, false, not, Option, none, some, List, [], ◌∷◌, ltb, ◌==◌, keep, is_nil,
  if◌then◌else◌, ◌||◌, length,
}

pub record IdleEntry : Type 0 where
  pub sess : ℕ
  pub deadline : ℕ

abbrev pub Heap : Type 0
Heap = List IdleEntry

pub record IdleSweeper : Type 0 where
  pub timeout : ℕ
  pub heap : Heap

unfoldable pub new_idle_sweeper : ℕ → IdleSweeper
new_idle_sweeper timeout = record { timeout = timeout; heap = [] }

abbrev pub is_off : IdleSweeper → Bool
is_off is = is.timeout == 0

abbrev pub is_of : ℕ → IdleEntry → Bool
is_of sess e = e.sess == sess

abbrev pub add : Option ℕ → List ℕ → List ℕ
add none expired = expired
add (some sess) expired = sess ∷ expired

module _ (arrange : Heap → Heap) where
  unfoldable pub track : ℕ → ℕ → IdleSweeper → Bool × IdleSweeper
  track now sess is = if is_off is then (false, is) else (
    true,
    record is { heap = arrange (record { sess = sess; deadline = now + is.timeout } ∷ is.heap) },
  )

  unfoldable pub untrack : ℕ → IdleSweeper → IdleSweeper
  untrack sess is =
      if is_off is || is_nil (keep (is_of sess) is.heap)
      then is
      else record is { heap = arrange (keep (λ e. not (is_of sess e)) is.heap) }

  -- The body of the loop for a first entry that seems expired: the session if it is, and the heap.
  -- `active` is when each session was last active.
  unfoldable pub settle : (now timeout : ℕ) → (active : ℕ → ℕ) → IdleEntry → Heap → Option ℕ × Heap
  settle now timeout active e es =
      if ltb now (active e.sess + timeout)
      then (none, arrange (record e { deadline = active e.sess + timeout } ∷ es))
      else (some e.sess, arrange es)

  -- The loop of `_expire`, on fuel.
  unfoldable pub expire_loop : ℕ → (now timeout : ℕ) → (active : ℕ → ℕ) → Heap → List ℕ × Heap
  unfolding settle
  expire_loop zero now timeout active h = ([], h)
  expire_loop (suc n) now timeout active [] = ([], [])
  expire_loop (suc n) now timeout active (e ∷ es) =
      let (sess, h) = settle now timeout active e es in
      let (expired, h') = expire_loop n now timeout active h in
      if ltb now e.deadline then ([], e ∷ es) else (add sess expired, h')

  unfoldable pub expire : ℕ → (ℕ → ℕ) → IdleSweeper → List ℕ × IdleSweeper
  unfolding expire_loop
  expire now active is =
      if is_off is
      then ([], is)
      else (let (expired, h) = expire_loop (length is.heap) now is.timeout active is.heap in
          (expired, record is { heap = h }))

pub data Call : Type 0 where
  tracked untracked : ℕ → ℕ → Call
  swept : ℕ → (ℕ → ℕ) → Call

-- Calls one after another, as the lock orders them.
unfoldable pub calls : (Heap → Heap) → List Call → IdleSweeper → IdleSweeper
unfolding track untrack expire
calls arrange [] is = is
calls arrange (tracked now sess ∷ cs) is = calls arrange cs (track arrange now sess is).1
calls arrange (untracked now sess ∷ cs) is = calls arrange cs (untrack arrange sess is)
calls arrange (swept now active ∷ cs) is = calls arrange cs (expire arrange now active is).1
