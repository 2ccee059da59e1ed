-- ===== src/Logger/Found.antt =====
-- The exporter's subscription in the bus of internal/decisions/bus.go, behind each of its changes.
use grunyas.Prelude.{
  if-holds, ℕ, ◌≡◌, refl, sym, ap, ◌∙◌, some, true, false, List, [], ◌∷◌, length, ◌==◌, Bool-cases,
  inl, inr, ltb,
}
use grunyas.Decisions.Events.{Message}
use grunyas.Decisions.Bus.{Sub, send, send_all, on_sub, receive, drain_dropped}
use grunyas.Logger.Exporter.{find_sub}

find_here :
    (id : ℕ) (x : Sub) (rest : List Sub) → x.id == id ≡ true → find_sub id (x ∷ rest) ≡ some x
unfolding find_sub
find_here id x rest b = rw b refl

find_later :
    (id : ℕ) (x : Sub) (rest : List Sub)
    → x.id == id ≡ false
    → find_sub id (x ∷ rest) ≡ find_sub id rest
unfolding find_sub
find_later id x rest b = rw b refl

-- A subscription that stands first, changed with its identifier kept, is found changed.
found_changed :
    (f : Sub → Sub) (id : ℕ) (x s : Sub) (rest rest' : List Sub)
    → (f x).id ≡ x.id
    → x.id == id ≡ true
    → find_sub id (x ∷ rest) ≡ some s
    → find_sub id (f x ∷ rest') ≡ some (f s)
found_changed f id x s rest rest' k b e =
    let h : some x ≡ some s = sym (find_here id x rest b) ∙ e in
    let same : x ≡ s = cc in
    find_here id (f x) rest' (ap (λ n. n == id) k ∙ b) ∙ ap (λ y. some (f y)) same

find-on_sub :
    (f : Sub → Sub) (id : ℕ) (subs : List Sub) (s : Sub)
    → ((x : Sub) → (f x).id ≡ x.id)
    → find_sub id subs ≡ some s
    → find_sub id (on_sub f id subs) ≡ some (f s)
unfolding on_sub
find-on_sub f id [] s k e = unfold find_sub in cc
find-on_sub f id (x ∷ rest) s k e = elim (Bool-cases (x.id == id)) [
  | inl b ↦ rw (b, on_sub) (found_changed f id x s rest (on_sub f id rest) (k x) b e)
  | inr b ↦
      rw (b, on_sub)
        (find_later id x (on_sub f id rest) b
          ∙ find-on_sub f id rest s k (sym (find_later id x rest b) ∙ e))
]

id-send : (buf : ℕ) (m : Message) (s : Sub) → (send buf m s).id ≡ s.id
unfolding send
id-send buf m s =
    if-holds (λ (x : Sub). x.id ≡ s.id) (ltb (length s.ch) buf) (λ e. refl) (λ e. refl)

pub find-send_all :
    (buf : ℕ) (m : Message) (id : ℕ) (subs : List Sub) (s : Sub)
    → find_sub id subs ≡ some s
    → find_sub id (send_all buf m subs).0 ≡ some (send buf m s)
unfolding send_all
find-send_all buf m id [] s e = unfold find_sub in cc
find-send_all buf m id (x ∷ rest) s e = elim (Bool-cases (x.id == id)) [
  | inl b ↦ found_changed (send buf m) id x s rest (send_all buf m rest).0 (id-send buf m x) b e
  | inr b ↦
      find_later id (send buf m x) (send_all buf m rest).0 (ap (λ n. n == id) (id-send buf m x) ∙ b)
      ∙ find-send_all buf m id rest s (sym (find_later id x rest b) ∙ e)
]

id-receive : (s : Sub) → (receive s).id ≡ s.id
unfolding receive
id-receive s = by_queue s.ch
  where
    by_queue :
        (ch : List Message) → (receive (record { id = s.id; ch = ch; drops = s.drops })).id ≡ s.id
    by_queue [] = refl
    by_queue (m ∷ rest) = refl

-- The subscription behind a round: without its oldest event and its drops.
pub find_taken :
    (id : ℕ) (subs : List Sub) (s : Sub) (m : Message) (rest : List Message)
    → find_sub id subs ≡ some s
    → s.ch ≡ m ∷ rest
    → find_sub id (on_sub drain_dropped id (on_sub receive id subs))
      ≡ some (record s { ch = rest; drops = 0 })
unfolding drain_dropped receive
find_taken id subs s m rest f q =
    find-on_sub drain_dropped id (on_sub receive id subs) (receive s) (λ x. refl)
      (find-on_sub receive id subs s id-receive f)
    ∙ rw q refl
