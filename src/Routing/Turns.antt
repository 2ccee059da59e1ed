-- ===== src/Routing/Turns.antt =====
-- `selectNode` of internal/routing/pipeline.go picks an eligible node.
use grunyas.Prelude.{
  ℕ, zero, suc, ◌%◌, ◌<◌, ◌≡◌, refl, String, str_eq, eq_iff, Option, none, some, true, List, [],
  ◌∷◌, length, get_elem?, arith, if-holds,
}
use grunyas.Classifier.Statement.{Port}
use grunyas.Routing.Filter.{is_write_port}
use grunyas.Routing.Select.{member, least, next_turn, select_node, choose_writer, take_turn}

-- The choice is one of the nodes.
abbrev pub Picks : List String → Option String → Type 0
Picks eligible o = (id : String) × (o ≡ some id) × (member id eligible ≡ true)

self_eq : (name : String) → str_eq name name ≡ true
self_eq name = (eq_iff name name).1 refl

least-member : (x : String) (ids : List String) → member (least x ids) (x ∷ ids) ≡ true
unfolding least member
least-member x [] = ground (arith, self_eq x)
least-member x (y ∷ ids) = ground (arith, least-member x ids, least-member y ids)

turn-Picks : (ids : List String) (i : ℕ) → i < length ids → Picks ids (get_elem? ids i)
unfolding member
turn-Picks [] i h = absurd (omega (arith, h))
turn-Picks (x ∷ ids) zero h = (x, refl, ground (arith, self_eq x))
turn-Picks (x ∷ ids) (suc i) h =
    let (id, e, m) = turn-Picks ids i (omega (arith, h)) in (id, e, ground (arith, m))

choose_writer-Picks :
    (first : String) (others : List String) (found : Option String)
    → member (choose_writer first others found) (first ∷ others) ≡ true
unfolding choose_writer member
choose_writer-Picks first others none = ground (arith, least-member first (first ∷ others))
choose_writer-Picks first others (some id) = ground (arith, least-member first (first ∷ others))

take_turn-Picks :
    (first : String) (others : List String) (rr : ℕ)
    → Picks (first ∷ others) (take_turn first others rr).0
unfolding take_turn
take_turn-Picks first [] rr = (first, refl, unfold member in ground (arith, self_eq first))
take_turn-Picks first (second ∷ others) rr =
    let eligible = first ∷ second ∷ others in
    turn-Picks eligible (next_turn rr % length eligible) (omega arith)

-- With an eligible node there is a choice, and it is eligible.
pub select_node-Picks :
    (first : String) (others : List String) (port : Port) (found : Option String) (rr : ℕ)
    → Picks (first ∷ others) (select_node (first ∷ others) port found rr).0
unfolding select_node
select_node-Picks first others port found rr =
    if-holds (λ (r : Option String × ℕ). Picks (first ∷ others) r.0) (is_write_port port)
      (λ w. (choose_writer first others found, refl, choose_writer-Picks first others found))
      (λ w. take_turn-Picks first others rr)
