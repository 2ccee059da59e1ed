-- ===== src/Examples/Logs.antt =====
-- A small channel of log lines, and an exporter on a bus with a short queue.
use grunyas.Prelude.{◌+◌, refl, List, [], ◌∷◌, arith}
use grunyas.Classifier.Text.{codes}
use grunyas.Decisions.Bus.{Bus, new_bus, subscribe}
use grunyas.Logger.Channel.{trim_newlines, writes}
use grunyas.Logger.Newest.{IsNewest, writes-IsNewest}
use grunyas.Logger.Exporter.{ExporterStep, published, exported, acts, find_sub}
use grunyas.Logger.Exported.{Accounts, acts-Accounts}
use grunyas.Examples.Decisions.{stamp, message}

writes-IsNewest_example :
    IsNewest
      (codes "a" ∷ codes "b" ∷ codes "c" ∷ [])
      (writes (codes "a" ∷ codes "b\n" ∷ codes "c" ∷ []) (record { channel = []; capacity = 2 }))
unfolding trim_newlines
writes-IsNewest_example = writes-IsNewest (codes "a" ∷ codes "b\n" ∷ codes "c" ∷ []) 2 (omega arith)

-- The exporter's subscription is 0.
abbrev bus : Bus
bus = (subscribe (new_bus 4 1)).1

abbrev actions : List ExporterStep
actions = published stamp message ∷ published stamp message ∷ exported ∷ exported ∷ []

acts-Accounts_example : Accounts 0 (0 + 2) (acts 0 actions (bus, []))
unfolding find_sub subscribe new_bus
acts-Accounts_example =
    acts-Accounts 0 0 actions bus []
      (record { id = 0; ch = []; drops = 0 }, refl, refl, omega arith, refl)
