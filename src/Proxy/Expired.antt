-- ===== src/Proxy/Expired.antt =====
-- Which sessions `_expire` of internal/server/proxy/idle_sweeper.go gives out.
use Prim.Native.Nat.{zero, suc}
use grunyas.Prelude.{
  ℕ, ◌+◌, ◌≤◌, ◌≡◌, ◌∙◌, ap, subst, refl, Bool, true, false, not, ◌&&◌, Option, List, [], ◌∷◌, ltb,
  ◌==◌, if◌then◌else◌, All, length, arith, if-holds, subst, ap, ◌∙◌, ◌||◌, is_nil, keep,
}
use grunyas.Proxy.IdleSweeper.{
  swept, tracked, untracked, IdleEntry, Heap, IdleSweeper, is_of, settle, add, expire_loop, expire,
  is_off, calls, new_idle_sweeper, track, Call, untrack, tracked, untracked, swept,
}

-- How many entries satisfy a test.
unfoldable pub tally {ℓ} : {A : Type ℓ} → (A → Bool) → List A → ℕ
tally p [] = 0
tally p (e ∷ es) = let n = tally p es in if p e then n + 1 else n

abbrev pub IsHeaded : Heap → Type 0
IsHeaded [] = Unit
IsHeaded (e ∷ es) = All (λ f. e.deadline ≤ f.deadline) es

-- The deadline kept for an entry has passed.
abbrev pub is_late : ℕ → IdleEntry → Bool
is_late now e = not (ltb now e.deadline)

-- A session whose deadline has passed and that has not been active since.
abbrev pub is_idle : (now timeout : ℕ) → (ℕ → ℕ) → ℕ → IdleEntry → Bool
is_idle now timeout active sess e =
    e.sess == sess && (is_late now e && not (ltb now (active e.sess + timeout)))

abbrev pub IsSettled : (now timeout : ℕ) → (ℕ → ℕ) → ℕ → Heap → List ℕ × Heap → Type 0
IsSettled now timeout active sess h (expired, h') =
    (tally (λ x. x == sess) expired ≡ tally (is_idle now timeout active sess) h)
    × (tally (λ x. x == sess) expired + tally (λ e. e.sess == sess) h'
        ≡ tally (λ e. e.sess == sess) h)
    × (tally (is_late now) h' ≡ 0)

tally-none :
    (now timeout : ℕ) (active : ℕ → ℕ) (sess : ℕ) (h : Heap)
    → tally (is_late now) h ≡ 0
    → tally (is_idle now timeout active sess) h ≡ 0
unfolding tally
tally-none now timeout active sess [] z = refl
tally-none now timeout active sess (e ∷ es) z =
    ground (arith, z, tally-none now timeout active sess es)

none-IsSettled :
    (now timeout : ℕ) (active : ℕ → ℕ) (sess : ℕ) (h : Heap)
    → tally (is_late now) h ≡ 0
    → IsSettled now timeout active sess h ([], h)
unfolding tally
none-IsSettled now timeout active sess h z =
    (omega (arith, tally-none now timeout active sess h z), omega arith, z)

headed_none :
    (now : ℕ) (d : ℕ) (es : Heap)
    → ltb now d ≡ true
    → All (λ f. d ≤ f.deadline) es
    → tally (is_late now) es ≡ 0
unfolding tally
headed_none now d [] l h = refl
headed_none now d (e ∷ es) l (p, h) = ground (arith, headed_none now d es l h, l, p)

tally-length : (now : ℕ) (h : Heap) → tally (is_late now) h ≤ length h
unfolding tally
tally-length now [] = omega arith
tally-length now (e ∷ es) = ground (arith, tally-length now es)

-- `arrange` is container/heap: it keeps the entries, and puts one with the first deadline in front.
module _ (arrange : Heap → Heap)
    (same : (p : IdleEntry → Bool) (h : Heap) → tally p (arrange h) ≡ tally p h)
    (headed : (h : Heap) → IsHeaded (arrange h)) where
  rearmed :
      (now timeout : ℕ) (active : ℕ → ℕ) (sess : ℕ) (e : IdleEntry) (es : Heap) (r : List ℕ × Heap)
      → ltb now e.deadline ≡ false
      → ltb now (active e.sess + timeout) ≡ true
      → IsSettled now timeout active sess
          (arrange (record e { deadline = active e.sess + timeout } ∷ es))
          r
      → IsSettled now timeout active sess (e ∷ es) r
  unfolding tally
  rearmed now timeout active sess e es r k a (p, q, z) =
      let h = record e { deadline = active e.sess + timeout } ∷ es in
      (
        ground (arith, p, same (is_idle now timeout active sess) h, k, a),
        ground (arith, q, same (λ f. f.sess == sess) h),
        z,
      )

  popped :
      (now timeout : ℕ) (active : ℕ → ℕ) (sess : ℕ) (e : IdleEntry) (es : Heap) (r : List ℕ × Heap)
      → ltb now e.deadline ≡ false
      → ltb now (active e.sess + timeout) ≡ false
      → IsSettled now timeout active sess (arrange es) r
      → IsSettled now timeout active sess (e ∷ es) (e.sess ∷ r.0, r.1)
  unfolding tally
  popped now timeout active sess e es r k a (p, q, z) = (
    ground (arith, p, same (is_idle now timeout active sess) es, k, a),
    ground (arith, q, same (λ f. f.sess == sess) es),
    z,
  )

  fewer_late :
      (now n d : ℕ) (e : IdleEntry) (es : Heap)
      → ltb now e.deadline ≡ false
      → ltb now d ≡ true
      → tally (is_late now) (e ∷ es) ≤ suc n
      → (tally (is_late now) (arrange (record e { deadline = d } ∷ es)) ≤ n)
        × (tally (is_late now) (arrange es) ≤ n)
  unfolding tally
  fewer_late now n d e es k a l = (
    ground (arith, same (is_late now) (record e { deadline = d } ∷ es), l, k, a),
    ground (arith, same (is_late now) es, l, k),
  )

  loop-IsSettled :
      (n now timeout : ℕ) (active : ℕ → ℕ) (sess : ℕ) (h : Heap)
      → IsHeaded h
      → tally (is_late now) h ≤ n
      → IsSettled now timeout active sess h (expire_loop arrange n now timeout active h)
  unfolding expire_loop settle
  loop-IsSettled zero now timeout active sess h o l =
      none-IsSettled now timeout active sess h (omega (arith, l))
  loop-IsSettled (suc n) now timeout active sess [] o l =
      none-IsSettled now timeout active sess [] (unfold tally in refl)
  loop-IsSettled (suc n) now timeout active sess (e ∷ es) o l =
      if-holds (IsSettled now timeout active sess (e ∷ es)) (ltb now e.deadline)
        (λ k.
          none-IsSettled now timeout active sess (e ∷ es)
            (unfold tally in ground (arith, k, headed_none now e.deadline es k o)))
        λ k.
          if-holds
            (λ (r : Option ℕ × Heap). IsSettled now timeout active sess (e ∷ es) (
              add r.0 (expire_loop arrange n now timeout active r.1).0,
              (expire_loop arrange n now timeout active r.1).1,
            ))
            (ltb now (active e.sess + timeout))
            (λ a.
              let h = arrange (record e { deadline = active e.sess + timeout } ∷ es) in
              rearmed now timeout active sess e es (expire_loop arrange n now timeout active h) k a
                (loop-IsSettled n now timeout active sess h (headed _)
                  (fewer_late now n _ e es k a l).0))
            (λ a.
              popped now timeout active sess e es
                (expire_loop arrange n now timeout active (arrange es)) k a
                (loop-IsSettled n now timeout active sess (arrange es) (headed es)
                  (fewer_late now n (suc now) e es k (unfold tally in ground arith) l).1))

  expire-IsSettled :
      (now sess : ℕ) (active : ℕ → ℕ) (is : IdleSweeper)
      → is_off is ≡ false
      → IsHeaded is.heap
      → let (expired, after) = expire arrange now active is in
        IsSettled now is.timeout active sess is.heap (expired, after.heap)
  unfolding expire
  expire-IsSettled now sess active is off o =
      if-holds
        (λ (r : List ℕ × IdleSweeper). IsSettled now is.timeout active sess is.heap (r.0, r.1.heap))
        (is_off is) (λ f. absurd (ground (arith, off, f)))
        λ f.
          loop-IsSettled (length is.heap) now is.timeout active sess is.heap o
            (tally-length now is.heap)

  loop-IsHeaded :
      (n now timeout : ℕ) (active : ℕ → ℕ) (h : Heap)
      → IsHeaded h
      → IsHeaded (expire_loop arrange n now timeout active h).1
  unfolding expire_loop settle
  loop-IsHeaded zero now timeout active h o = o
  loop-IsHeaded (suc n) now timeout active [] o = tt
  loop-IsHeaded (suc n) now timeout active (e ∷ es) o =
      if-holds (λ (r : List ℕ × Heap). IsHeaded r.1) (ltb now e.deadline) (λ k. o)
        λ k. loop-IsHeaded n now timeout active _ (
          if-holds (λ (r : Option ℕ × Heap). IsHeaded r.1) (ltb now (active e.sess + timeout))
            (λ a. headed _) (λ a. headed es))

  calls-IsHeaded :
      (cs : List Call) (is : IdleSweeper)
      → IsHeaded is.heap
      → IsHeaded (calls arrange cs is).heap × ((calls arrange cs is).timeout ≡ is.timeout)
  unfolding calls track untrack expire
  calls-IsHeaded [] is o = (o, refl)
  calls-IsHeaded (tracked now sess ∷ cs) is o =
      let (k, t) =
        if-holds (λ (r : Bool × IdleSweeper). IsHeaded r.1.heap × (r.1.timeout ≡ is.timeout))
          (is_off is) (λ f. (o, refl)) (λ f. (headed _, refl)) in
      let (p, q) = calls-IsHeaded cs (track arrange now sess is).1 k in (p, q ∙ t)
  calls-IsHeaded (untracked now sess ∷ cs) is o =
      let (k, t) =
        if-holds (λ (r : IdleSweeper). IsHeaded r.heap × (r.timeout ≡ is.timeout))
          (is_off is || is_nil (keep (is_of sess) is.heap)) (λ f. (o, refl))
          (λ f. (headed _, refl)) in
      let (p, q) = calls-IsHeaded cs (untrack arrange sess is) k in (p, q ∙ t)
  calls-IsHeaded (swept now active ∷ cs) is o =
      let (k, t) =
        if-holds (λ (r : List ℕ × IdleSweeper). IsHeaded r.1.heap × (r.1.timeout ≡ is.timeout))
          (is_off is) (λ f. (o, refl))
          (λ f. (loop-IsHeaded (length is.heap) now is.timeout active is.heap o, refl)) in
      let (p, q) = calls-IsHeaded cs (expire arrange now active is).1 k in (p, q ∙ t)

  -- With a heap that keeps its entries and puts one with the first deadline in front, after any calls
  -- on a new sweeper with a timeout: a call of `Expire` gives out each session as many times as it has
  -- entries whose deadline has passed and it was not active within the timeout, keeps the other
  -- entries of each session, and every deadline that is left lies ahead.
  pub expire-calls :
      (timeout : ℕ) (cs : List Call) (now sess : ℕ) (active : ℕ → ℕ)
      → (timeout == 0) ≡ false
      → let is = calls arrange cs (new_idle_sweeper timeout) in
        let (expired, after) = expire arrange now active is in
        IsSettled now timeout active sess is.heap (expired, after.heap)
  unfolding new_idle_sweeper
  expire-calls timeout cs now sess active off =
      let (o, t) = calls-IsHeaded cs (new_idle_sweeper timeout) tt in
      let is = calls arrange cs (new_idle_sweeper timeout) in
      subst
        (λ d.
          IsSettled now d active sess is.heap
            ((expire arrange now active is).0, (expire arrange now active is).1.heap))
        t (expire-IsSettled now sess active is (ap (λ d. d == 0) t ∙ off) o)
