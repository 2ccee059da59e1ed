-- ===== src/Session/Connection.antt =====
-- The connections that the loop of internal/server/session/session.go takes and gives back.
use grunyas.Prelude.{
  sym, ◌∙◌, ◌≡◌, refl, ap, Bool, true, false, not, ◌&&◌, ◌||◌, Option, none, some, List, [], ◌∷◌,
  ◌++◌, if◌then◌else◌, arith, if-holds, case-holds, Bool-cases, inl, inr,
}
use grunyas.Classifier.Text.{Text}
use grunyas.Session.Compat.{Message, Reply, State, World, Handled, is_failed}
use grunyas.Session.Loop.{
  read_rejection, begin_answer, buffered, fatal_answer, refused_begin, sent_begin, Action, reply,
  pass, send, acquire, release, reject_read, reject_compat, Loop, Result, held, replies, is_compat,
  release_upstream, finish, answer_and, reject_read_write, buffer_begin, compat_actions, refuse,
  forward_message, with_upstream,
}

-- The actions seen from the pool: a connection is taken when none is held, given back when one is,
-- and messages go to one that is held. `none` is a breach.
unfoldable pub follow : Bool → List Action → Option Bool
follow h [] = some h
follow h (acquire ∷ acts) = if h then none else follow true acts
follow h (release ∷ acts) = if h then follow false acts else none
follow h (send m ∷ acts) = if h then follow h acts else none
follow h (reply r ∷ acts) = follow h acts
follow h (pass b ∷ acts) = follow h acts
follow h (reject_read ∷ acts) = follow h acts
follow h (reject_compat ∷ acts) = follow h acts

then_follow : Option Bool → List Action → Option Bool
then_follow none acts = none
then_follow (some h) acts = follow h acts

follow-append :
    (h : Bool) (acts bs : List Action) → follow h (acts ++ bs) ≡ then_follow (follow h acts) bs
unfolding follow then_follow
follow-append h [] bs = refl
follow-append true (acquire ∷ acts) bs = refl
follow-append false (acquire ∷ acts) bs = follow-append true acts bs
follow-append true (release ∷ acts) bs = follow-append false acts bs
follow-append false (release ∷ acts) bs = refl
follow-append true (send m ∷ acts) bs = follow-append true acts bs
follow-append false (send m ∷ acts) bs = refl
follow-append h (reply r ∷ acts) bs = follow-append h acts bs
follow-append h (pass b ∷ acts) bs = follow-append h acts bs
follow-append h (reject_read ∷ acts) bs = follow-append h acts bs
follow-append h (reject_compat ∷ acts) bs = follow-append h acts bs

-- A session that has ended holds nothing; a failed transaction of the compat port holds a connection.
abbrev pub is_sound : Loop → Bool
is_sound l =
    if l.ended
    then not (held l)
    else (held l || not (is_compat l.port && is_failed l.compat.tx_state))

abbrev pub IsTracked : Bool → Result → Type 0
IsTracked h (out, l) = (follow h out ≡ some (held l)) × (is_sound l ≡ true)

pub release_upstream-follow :
    (h : Bool) (out : List Action) (l : Loop)
    → follow h out ≡ some (held l)
    → (follow h (release_upstream out l).0 ≡ some false) × (held (release_upstream out l).1 ≡ false)
unfolding release_upstream follow then_follow
release_upstream-follow h out l e = elim (Bool-cases (held l)) [
  | inl b ↦ (ground (arith, b, e, follow-append h out (release ∷ [])), ground (arith, b))
  | inr b ↦ (ground (arith, b, e), ground (arith, b))
]

pub finish-IsTracked :
    (h : Bool) (out : List Action) (l : Loop)
    → follow h out ≡ some (held l)
    → IsTracked h (finish out l)
unfolding finish release_upstream
finish-IsTracked h out l e =
    let (f, n) = release_upstream-follow h out (record l { ended = true }) e in
    (ground (arith, f, n), ground (arith, n))

pub answer_and-IsTracked :
    (h : Bool) (w : World) (out : List Action) (l : Loop)
    → IsTracked h (out, l)
    → IsTracked h (answer_and w out l)
unfolding answer_and
answer_and-IsTracked h w out l t =
    if-holds (IsTracked h) w.flush_works (λ f. t) (λ f. finish-IsTracked h out l t.0)

pub reject_read_write-IsTracked :
    (w : World) (l : Loop) → is_sound l ≡ true → IsTracked (held l) (reject_read_write w l)
unfolding reject_read_write follow
reject_read_write-IsTracked w l s =
    if-holds (IsTracked (held l)) w.flush_works (λ f. (refl, s))
      (λ f. finish-IsTracked (held l) read_rejection l refl)

pub buffer_begin-IsTracked :
    (w : World) (m : Message) (l : Loop)
    → is_sound l ≡ true
    → IsTracked (held l) (buffer_begin w m l)
unfolding buffer_begin follow
buffer_begin-IsTracked w m l s =
    if-holds (IsTracked (held l)) w.send_works
      (λ f. answer_and-IsTracked (held l) w begin_answer (buffered m l) (refl, s))
      (λ f. finish-IsTracked (held l) [] (buffered m l) refl)

follow-replies : (h : Bool) (rs : List Reply) → follow h (replies rs) ≡ some h
unfolding follow
follow-replies h [] = refl
follow-replies h (r ∷ rs) = follow-replies h rs

pub follow_then :
    (h k j : Bool) (out more : List Action)
    → follow h out ≡ some k
    → follow k more ≡ some j
    → follow h (out ++ more) ≡ some j
follow_then h k j out more e f =
    follow-append h out more ∙ (ap (λ o. then_follow o more) e ∙ unfold then_follow in f)

refuse-IsTracked :
    (h : Bool) (w : World) (out : List Action) (l : Loop)
    → IsTracked h (out, l)
    → IsTracked h (refuse w out l)
unfolding refuse follow
refuse-IsTracked h w out l (e, s) =
    case-holds (IsTracked h) l.pending_begin
      (λ n.
        finish-IsTracked h (out ++ fatal_answer w) l
          (follow_then h (held l) (held l) out (fatal_answer w) e refl))
      (λ sql n.
        answer_and-IsTracked h w (out ++ refused_begin w) (record l { pending_begin = none })
          (follow_then h (held l) (held l) out (refused_begin w) e refl, s))

follow-sends :
    (o : Option Text) (m : Message) → follow true (sent_begin o ++ (send m ∷ [])) ≡ some true
unfolding follow
follow-sends none m = refl
follow-sends (some sql) m = refl

forward_message-IsTracked :
    (h : Bool) (w : World) (out : List Action) (m : Message) (l : Loop)
    → IsTracked h (out, l)
    → held l ≡ true
    → IsTracked h (forward_message w out m l)
unfolding forward_message
forward_message-IsTracked h w out m l (e, s) u =
    if-holds (IsTracked h) w.upstream_works
      (λ f. (
        follow_then h true (held l) out _ (e ∙ ap some u)
            (follow-sends l.pending_begin m ∙ ap some (sym u)),
        s,
      ))
      (λ f. finish-IsTracked h out l e)

pub with_upstream-IsTracked :
    (h : Bool) (w : World) (m : Message) (out : List Action) (failed handled : Bool) (l : Loop)
    → IsTracked h (out, l)
    → (handled || (failed || held l)) ≡ true
    → IsTracked h (with_upstream w m out failed handled l)
unfolding with_upstream
with_upstream-IsTracked h w m out failed handled l t u =
    if-holds (IsTracked h) failed (λ f. refuse-IsTracked h w out l t)
      λ f.
        if-holds (IsTracked h) handled (λ d. t)
          (λ d. forward_message-IsTracked h w out m l t (ground (arith, u, f, d)))

pub compat_actions-follow :
    (h : Handled) (s s' : State)
    → (s.upstream && not s'.upstream) ≡ false
    → follow s.upstream (compat_actions h s s') ≡ some s'.upstream
unfolding compat_actions follow
compat_actions-follow h s s' k =
    follow_then s.upstream s'.upstream s'.upstream
      (if not s.upstream && s'.upstream then acquire ∷ [] else []) _ (ground (arith, k))
      (follow_then s'.upstream s'.upstream s'.upstream
        (if h.rejection then reject_compat ∷ [] else []) (replies h.replies) (ground arith)
        (follow-replies s'.upstream h.replies))
