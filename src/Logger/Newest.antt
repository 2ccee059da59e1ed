-- ===== src/Logger/Newest.antt =====
-- The channel of internal/logger/channel.go keeps the newest lines.
use mathlib.Core.List.{append-nil}
use grunyas.Prelude.{
  Bool, if-holds, ℕ, ◌≤◌, ◌<◌, ◌≡◌, ◌⊎◌, refl, sym, ap, ◌∙◌, arith, true, false, List, [], ◌∷◌,
  ◌++◌, map, length, length-append, append_assoc, ltb, Bool-cases, inl, inr, subst,
}
use grunyas.Classifier.Text.{Text}
use grunyas.Logger.Channel.{LoggerChannel, trim_newlines, write, writes, try_send, drop_oldest}

-- What is kept are the last of the lines, at most as many as there is room for, and all of them
-- unless the channel is full.
abbrev pub IsNewest : List Text → LoggerChannel → Type 0
IsNewest past w =
    (lost : List Text) × (past ≡ lost ++ w.channel)
    × (length w.channel ≤ w.capacity)
    × ((lost ≡ []) ⊎ (length w.channel ≡ w.capacity))

write_room :
    (p : Text) (w : LoggerChannel)
    → ltb (length w.channel) w.capacity ≡ true
    → write p w ≡ record w { channel = w.channel ++ (trim_newlines p ∷ []) }
unfolding write try_send
write_room p w e = rw e refl

write_full :
    (p m : Text) (rest : List Text) (cap : ℕ)
    → length (m ∷ rest) ≡ cap
    → write p (record { channel = m ∷ rest; capacity = cap })
      ≡ record { channel = rest ++ (trim_newlines p ∷ []); capacity = cap }
unfolding write try_send drop_oldest
write_full p m rest cap e =
    let full : ltb (length (m ∷ rest)) cap ≡ false = ground (arith, e) in
    let room : ltb (length rest) cap ≡ true = ground (arith, e) in rw (full, room) refl

-- With room the line is added at the end.
room-IsNewest :
    (p : Text) (past : List Text) (w : LoggerChannel)
    → ltb (length w.channel) w.capacity ≡ true
    → IsNewest past w
    → IsNewest (past ++ (trim_newlines p ∷ [])) (write p w)
room-IsNewest p past w r (lost, e, b, o) =
    let t = trim_newlines p in
    rw (write_room p w r) (
      lost,
      ap (λ l. l ++ (t ∷ [])) e ∙ append_assoc lost w.channel (t ∷ []),
      ground (arith, r, length-append w.channel (t ∷ [])),
      elim o [ inl n ↦ inl n | inr f ↦ absurd (ground (arith, r, f)) ],
    )

-- A full channel loses its oldest line.
full-IsNewest :
    (p : Text) (past lost channel : List Text) (cap : ℕ)
    → 0 < cap
    → length channel ≡ cap
    → past ≡ lost ++ channel
    → IsNewest
        (past ++ (trim_newlines p ∷ []))
        (write p (record { channel = channel; capacity = cap }))
full-IsNewest p past lost [] cap h f e = absurd (omega (arith, h, f))
full-IsNewest p past lost (m ∷ rest) cap h f e =
    let t = trim_newlines p in
    rw (write_full p m rest cap f) (
      lost ++ (m ∷ []),
      ap (λ l. l ++ (t ∷ [])) e
          ∙ (append_assoc lost (m ∷ rest) (t ∷ [])
              ∙ sym (append_assoc lost (m ∷ []) (rest ++ (t ∷ [])))),
      omega (arith, f, length-append rest (t ∷ [])),
      inr (omega (arith, f, length-append rest (t ∷ []))),
    )

write-IsNewest :
    (p : Text) (past : List Text) (w : LoggerChannel)
    → 0 < w.capacity
    → IsNewest past w
    → IsNewest (past ++ (trim_newlines p ∷ [])) (write p w)
write-IsNewest p past w h (lost, e, b, o) = elim (Bool-cases (ltb (length w.channel) w.capacity)) [
  | inl r ↦ room-IsNewest p past w r (lost, e, b, o)
  | inr r ↦ full-IsNewest p past lost w.channel w.capacity h (ground (arith, r, b)) e
]

capacity-try_send : (m : Text) (w : LoggerChannel) → (try_send m w).1.capacity ≡ w.capacity
unfolding try_send
capacity-try_send m w =
    if-holds (λ (r : Bool × LoggerChannel). r.1.capacity ≡ w.capacity)
      (ltb (length w.channel) w.capacity) (λ e. refl) (λ e. refl)

capacity-drop_oldest :
    (channel : List Text) (cap : ℕ)
    → (drop_oldest (record { channel = channel; capacity = cap })).capacity ≡ cap
unfolding drop_oldest
capacity-drop_oldest [] cap = refl
capacity-drop_oldest (m ∷ rest) cap = refl

capacity-write : (p : Text) (w : LoggerChannel) → (write p w).capacity ≡ w.capacity
unfolding write
capacity-write p w =
    let t = trim_newlines p in
    if-holds (λ (x : LoggerChannel). x.capacity ≡ w.capacity) ((try_send t w).0)
      (λ e. capacity-try_send t w)
      (λ e. capacity-try_send t (drop_oldest w) ∙ capacity-drop_oldest w.channel w.capacity)

further_writes-IsNewest :
    (ps past : List Text) (w : LoggerChannel)
    → 0 < w.capacity
    → IsNewest past w
    → IsNewest (past ++ map trim_newlines ps) (writes ps w)
unfolding writes
further_writes-IsNewest [] past w h n = subst (λ l. IsNewest l w) (sym (append-nil past)) n
further_writes-IsNewest (p ∷ ps) past w h n =
    subst (λ l. IsNewest l (writes ps (write p w)))
      (append_assoc past (trim_newlines p ∷ []) (map trim_newlines ps))
      (further_writes-IsNewest ps (past ++ (trim_newlines p ∷ [])) (write p w)
        (subst (λ c. 0 < c) (sym (capacity-write p w)) h) (write-IsNewest p past w h n))

-- After any writes to an empty channel that has room for a line, with no reader, the channel holds the
-- last of the lines written, at most as many as it has room for, and all of them unless it is full.
-- The lines are without the newlines at their ends.
pub writes-IsNewest :
    (ps : List Text) (cap : ℕ)
    → 0 < cap
    → IsNewest (map trim_newlines ps) (writes ps (record { channel = []; capacity = cap }))
writes-IsNewest ps cap h =
    further_writes-IsNewest ps [] (record { channel = []; capacity = cap }) h
      ([], refl, omega (arith, h), inl refl)
