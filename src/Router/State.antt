-- ===== src/Router/State.antt =====
-- The state of `Router` (Router.hpp): the route table and the connection table as the sequences of
-- their ordered indices. A connection is known by its id; ids start at 1, and 0 stands for the
-- null pointer of a `RouteTableEntry`. What the router does to others is a list of events.
use Prim.Native.String.{String}
use synergy_hogsback.Prelude.{ℕ, Bool, true, false, ◌||◌, ltb, ◌==◌, if◌then◌else◌, List, [], ◌∷◌}
use synergy_hogsback.Message.{Route, Message, MessageHeader}

pub record RouteTableEntry : Type 0 where
  pub route : Route
  pub open route use *
  pub connection : ℕ

pub record Connection : Type 0 where
  pub id : ℕ
  pub remote_ip : ℕ
  pub local_ip : ℕ

-- `std::vector`'s `<`.
unfoldable pub path_less : List ℕ → List ℕ → Bool
path_less [] [] = false
path_less [] (y ∷ ys) = true
path_less (x ∷ xs) [] = false
path_less (x ∷ xs) (y ∷ ys) =
    let later = path_less xs ys in if ltb x y then true else if ltb y x then false else later

-- The composite key of the route table: destination, cost, path.
unfoldable pub route_less : RouteTableEntry → RouteTableEntry → Bool
route_less a b =
    if ltb a.dest b.dest
    then true
    else if ltb b.dest a.dest
    then false
    else if ltb a.cost b.cost
    then true
    else if ltb b.cost a.cost
    then false
    else path_less a.path b.path

-- The composite key of the connection table: remote, then local address.
unfoldable pub connection_less : Connection → Connection → Bool
connection_less a b =
    if ltb a.remote_ip b.remote_ip
    then true
    else if ltb b.remote_ip a.remote_ip
    then false
    else ltb a.local_ip b.local_ip

pub record Router : Type 0 where
  pub id : ℕ
  pub name : String
  pub running : Bool
  pub route_table : List RouteTableEntry
  pub connections : List Connection

-- What a router does to its connections and its listeners, in order.
pub data Event : Type 0 where
  -- `connection->send (message)`
  sent : ℕ → Message → Event
  -- `connection->send (header, message)`
  forwarded : ℕ → MessageHeader → Message → Event
  -- `connection->stop ()`
  stopped : ℕ → Event
  -- `on_node_reachable`, `on_node_unreachable`
  reachable : ℕ → Event
  unreachable : ℕ → Event
  -- `on_receive (message, source)`
  received : Message → ℕ → Event
  -- a connect thread for a peer is spawned
  connecting : ℕ → Event

abbrev pub contains : ℕ → List ℕ → Bool
contains a [] = false
contains a (x ∷ xs) = x == a || contains a xs

-- Does the table have a way to the node?
abbrev pub reaches : ℕ → List RouteTableEntry → Bool
reaches d [] = false
reaches d (r ∷ rs) = r.dest == d || reaches d rs
