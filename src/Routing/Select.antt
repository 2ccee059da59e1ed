-- ===== src/Routing/Select.antt =====
-- `selectNode` of internal/routing/pipeline.go. The round-robin counter is an unsigned integer of
-- 64 bits. `none` is the panic of an index out of range: the set of eligible nodes is empty.
use grunyas.Prelude.{
  ℕ, ◌+◌, ◌%◌, ◌^◌, String, str_eq, Option, none, some, Bool, true, false, List, [], ◌∷◌, length,
  get_elem?, if◌then◌else◌,
}
use Prim.Native.String.{compare}
use text.Mathlib.Text.{is_lt}
use grunyas.Routing.Filter.{is_write_port}
use grunyas.Classifier.Statement.{Port}

unfoldable pub member : String → List String → Bool
member x [] = false
member x (y ∷ ys) = if str_eq y x then true else member x ys

-- The loop over all that keeps the smallest in the order of Go's strings.
unfoldable pub least : String → List String → String
least selected [] = selected
least selected (id ∷ rest) = least (if is_lt (compare id selected) then id else selected) rest

-- p.readRR.Add(1)
unfoldable pub next_turn : ℕ → ℕ
next_turn rr = (rr + 1) % 2 ^ 64

-- On the write port: the primary if it is eligible, and the smallest of the eligible nodes if not.
unfoldable pub choose_writer : String → List String → Option String → String
unfolding member least
choose_writer first others none = least first (first ∷ others)
choose_writer first others (some id) =
    if member id (first ∷ others) then id else least first (first ∷ others)

-- On another port: the only node, or the next in turn, with the counter after the call.
unfoldable pub take_turn : String → List String → ℕ → Option String × ℕ
unfolding next_turn
take_turn first [] rr = (some first, rr)
take_turn first (second ∷ others) rr =
    let eligible = first ∷ second ∷ others in
    (get_elem? eligible (next_turn rr % length eligible), next_turn rr)

-- The node and the counter after the call. `primary` is the identifier of the primary, when there
-- is one.
unfoldable pub select_node : List String → Port → Option String → ℕ → Option String × ℕ
unfolding choose_writer take_turn
select_node [] port primary rr = (none, rr)
select_node (first ∷ others) port primary rr =
    if is_write_port port
    then (some (choose_writer first others primary), rr)
    else take_turn first others rr
