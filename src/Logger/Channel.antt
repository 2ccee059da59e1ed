-- ===== src/Logger/Channel.antt =====
-- internal/logger/channel.go. A call of `Write` runs without another one inside it; the reader of the
-- channel is the console.
use grunyas.Prelude.{
  ℕ, Bool, List, [], ◌∷◌, ◌++◌, ltb, length, ◌==◌, is_nil, ◌&&◌, if◌then◌else◌, true, false,
}
use grunyas.Classifier.Text.{Text}

-- The channel with its capacity.
pub record LoggerChannel : Type 0 where
  pub channel : List Text
  pub capacity : ℕ

unfoldable pub new_logger_channel : LoggerChannel
new_logger_channel = record { channel = []; capacity = 1000 }

-- strings.TrimRight(s, "\n")
unfoldable pub trim_newlines : Text → Text
trim_newlines [] = []
trim_newlines (c ∷ s) = let t = trim_newlines s in if is_nil t && c == b'\n' then [] else c ∷ t

-- A send under select with a default: `false` if the channel is full.
unfoldable pub try_send : Text → LoggerChannel → Bool × LoggerChannel
try_send msg w =
    if ltb (length w.channel) w.capacity
    then (true, record w { channel = w.channel ++ (msg ∷ []) })
    else (false, w)

-- A receive under select with a default.
unfoldable pub drop_oldest : LoggerChannel → LoggerChannel
drop_oldest w = elim w.channel [ [] ↦ w | m ∷ rest ↦ record w { channel = rest } ]

unfoldable pub write : Text → LoggerChannel → LoggerChannel
unfolding try_send drop_oldest trim_newlines
write p w =
    let (sent, w') = try_send (trim_newlines p) w in
    if sent then w' else (try_send (trim_newlines p) (drop_oldest w)).1

unfoldable pub writes : List Text → LoggerChannel → LoggerChannel
unfolding write
writes [] w = w
writes (p ∷ ps) w = writes ps (write p w)
