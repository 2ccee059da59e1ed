-- ===== src/Proxy/Counted.antt =====
-- The limit on sessions of internal/server/proxy/proxy.go.
use Prim.Native.Nat.{zero, suc}
use grunyas.Prelude.{
  ℕ, ◌+◌, ◌≤◌, ◌≡◌, refl, sym, ap, ◌∙◌, Bool, true, false, not, ◌||◌, List, [], ◌∷◌, ◌==◌,
  if◌then◌else◌, length, ltb, arith, if-holds,
}
use grunyas.Prelude.Int.{pos, ltb_ℤ}
use grunyas.Proxy.IdleSweeper.{IdleSweeper, Heap}
use grunyas.Proxy.Admission.{
  Proxy, increment, decrement, can_accept_new_connection, arrive, is_member, delete, enter, leave,
  release_slot, releases, previous, Step, arrives, enters, leaves, steps, initialize, Answer,
  previous,
}

abbrev pub live : Proxy → ℕ
live prx = prx.starting + length prx.sessions + prx.leaving

abbrev pub IsCounted : ℕ → Proxy → Type 0
IsCounted m prx =
    (prx.max_sessions ≡ pos m) × (prx.current_connections_count ≡ pos (live prx)) × (live prx ≤ m)

length-delete : (x : ℕ) (xs : List ℕ) → is_member x xs ≡ true → length (delete x xs) + 1 ≡ length xs
unfolding delete
length-delete x [] e = cc
length-delete x (y ∷ ys) e = ground (arith, length-delete x ys, e)

-- The answer about one more connection, and the state after it.
abbrev IsAnswered : ℕ → Proxy → Bool × Proxy → Type 0
IsAnswered m prx (ok, prx') =
    (ok ≡ ltb (live prx) m)
    × (prx'.max_sessions ≡ pos m)
    × (prx'.current_connections_count ≡ pos (if ok then live prx + 1 else live prx))
    × (prx'.starting ≡ prx.starting)
    × (prx'.sessions ≡ prx.sessions)
    × (prx'.leaving ≡ prx.leaving)

can_accept-IsAnswered :
    (m : ℕ) (prx : Proxy)
    → 1 ≤ m
    → IsCounted m prx
    → IsAnswered m prx (can_accept_new_connection prx)
unfolding can_accept_new_connection
can_accept-IsAnswered m prx p (e, f, l) =
    let limited : ltb_ℤ (pos 0) prx.max_sessions ≡ ltb 0 m = ap (ltb_ℤ (pos 0)) e in
    let room : ltb_ℤ prx.current_connections_count prx.max_sessions ≡ ltb (live prx) m =
      ap (λ x. ltb_ℤ x prx.max_sessions) f ∙ ap (ltb_ℤ (pos (live prx))) e in
    if-holds (IsAnswered m prx) (not (ltb_ℤ (pos 0) prx.max_sessions))
      (λ b. absurd (ground (arith, b, limited, p)))
      λ b.
        if-holds (IsAnswered m prx) (not (ltb_ℤ prx.current_connections_count prx.max_sessions))
          (λ c. (ground (arith, c, room), e, f, refl, refl, refl))
          (λ c. (ground (arith, c, room), e, ap increment f, refl, refl, refl))

arrive-IsCounted :
    (m : ℕ) (is_tcp : Bool) (prx : Proxy)
    → 1 ≤ m
    → IsCounted m prx
    → IsCounted m (arrive is_tcp prx).1
unfolding arrive
arrive-IsCounted m is_tcp prx p (e, f, l) =
    let (ok, k, c, s, t, v) = can_accept-IsAnswered m prx p (e, f, l) in
    let prx' = (can_accept_new_connection prx).1 in
    let same : length prx'.sessions ≡ length prx.sessions = ap length t in
    if-holds (λ (r : List Answer × Proxy). IsCounted m r.1) (not is_tcp) (λ b. (e, f, l))
      λ b.
        if-holds (λ (r : List Answer × Proxy). IsCounted m r.1)
          (not (can_accept_new_connection prx).0)
          (λ d. (k, c ∙ ap pos (ground (arith, d, s, same, v)), ground (arith, s, same, v, l)))
          (λ d. (k, c ∙ ap pos (ground (arith, d, s, same, v)), ground (arith, s, same, v, ok, d)))

enter-IsCounted :
    (arrange : Heap → Heap) (m now sess : ℕ) (prx : Proxy)
    → (prx.starting == 0 || is_member sess prx.sessions) ≡ false
    → IsCounted m prx
    → IsCounted m (enter arrange now sess prx)
unfolding enter
enter-IsCounted arrange m now sess prx b (e, f, l) =
    let same = moved prx.starting (length prx.sessions) prx.leaving (ground (arith, b)) in
    (e, f ∙ ap pos (sym same), omega (arith, same, l))
  where
    moved : (a b c : ℕ) → (a == 0) ≡ false → previous a + suc b + c ≡ a + b + c
    moved zero b c e = cc
    moved (suc a) b c e = omega arith

leave-IsCounted :
    (arrange : Heap → Heap) (m sess : ℕ) (prx : Proxy)
    → is_member sess prx.sessions ≡ true
    → IsCounted m prx
    → IsCounted m (leave arrange sess prx)
unfolding leave
leave-IsCounted arrange m sess prx b (e, f, l) =
    let less = length-delete sess prx.sessions b in
    let count : live prx ≡ prx.starting + length (delete sess prx.sessions) + (prx.leaving + 1) =
      omega (arith, less) in
    (e, f ∙ ap pos count, omega (arith, count, l))

release_slot-IsCounted :
    (m : ℕ) (prx : Proxy)
    → (prx.leaving == 0) ≡ false
    → IsCounted m prx
    → IsCounted m (release_slot prx)
unfolding release_slot
release_slot-IsCounted m prx b (e, f, l) =
    let count = fewer (prx.starting + length prx.sessions) prx.leaving b in
    (e, ap decrement (f ∙ ap pos count), omega (arith, count, l))
  where
    fewer : (a c : ℕ) → (c == 0) ≡ false → a + c ≡ suc (a + previous c)
    fewer a zero e = cc
    fewer a (suc c) e = omega arith

steps-IsCounted :
    (arrange : Heap → Heap) (m : ℕ) (ss : List Step) (prx : Proxy)
    → 1 ≤ m
    → IsCounted m prx
    → IsCounted m (steps arrange ss prx)
unfolding steps
steps-IsCounted arrange m [] prx p c = c
steps-IsCounted arrange m (arrives is_tcp ∷ ss) prx p c =
    steps-IsCounted arrange m ss _ p (arrive-IsCounted m is_tcp prx p c)
steps-IsCounted arrange m (enters now sess ∷ ss) prx p c = steps-IsCounted arrange m ss _ p (
    if-holds (IsCounted m) (prx.starting == 0 || is_member sess prx.sessions) (λ b. c)
      (λ b. enter-IsCounted arrange m now sess prx b c))
steps-IsCounted arrange m (leaves sess ∷ ss) prx p c = steps-IsCounted arrange m ss _ p (
    if-holds (IsCounted m) (is_member sess prx.sessions)
      (λ b. leave-IsCounted arrange m sess prx b c) (λ b. c))
steps-IsCounted arrange m (releases ∷ ss) prx p c =
    steps-IsCounted arrange m ss _ p
      (if-holds (IsCounted m) (prx.leaving == 0) (λ b. c) (λ b. release_slot-IsCounted m prx b c))

-- With a limit of at least one session, after any steps of a new proxy, in any order: the count is that
-- of the sessions that are in, of the connections let in whose session is not yet entered, and of
-- those whose session is taken out and not yet discounted; together they are never more than the
-- limit; and one more connection is let in exactly when they are fewer.
pub sessions_within_limit :
    (arrange : Heap → Heap) (m : ℕ) (idle : IdleSweeper) (ss : List Step)
    → 1 ≤ m
    → let prx = steps arrange ss (initialize (pos m) idle) in
      (prx.current_connections_count ≡ pos (live prx))
      × (live prx ≤ m)
      × ((can_accept_new_connection prx).0 ≡ ltb (live prx) m)
sessions_within_limit arrange m idle ss p =
    let c =
      steps-IsCounted arrange m ss (initialize (pos m) idle) p
        (unfold initialize in (refl, refl, omega arith)) in
    (c.1, c.2, (can_accept-IsAnswered m (steps arrange ss (initialize (pos m) idle)) p c).0)
