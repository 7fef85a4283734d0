-- ===== src/Router/Examples.antt =====
-- Router.cpp on a small network: node 1 with two neighbours, nodes 2 and 3, that both know node 7.
use synergy_hogsback.Prelude.{
  ◌≢◌, if◌then◌else◌, All, ℕ, ◌≡◌, refl, true, false, List, [], ◌∷◌, arith, any, some,
}
use synergy_hogsback.Index.{Index, place, rank, erase, equivalent}
use synergy_hogsback.Index.Listed.{listed, first, insert_unique}
use synergy_hogsback.Message.{
  RouteAdvertisement, Message, MessageHeader, message, route_advertisement, server_claim,
  default_header, header,
}
use synergy_hogsback.Router.State.{
  RouteTableEntry, Connection, path_less, route_less, connection_less, Router, Event, reaches,
}
use synergy_hogsback.Router.Rows.{rows_for}
use synergy_hogsback.Router.Best.{best}
use synergy_hogsback.Router.Valid.{
  IsValid, install-IsValid, install_keeps_best, install_result, IsNew,
}
use synergy_hogsback.Router.Install.{
  install, make_way, erase_found, integrate_advertisement, integrate_all,
}
use synergy_hogsback.Router.Handler.{start, add, on_connected, on_message, handle}
use synergy_hogsback.Router.Invariant.{RouterInv}
use synergy_hogsback.Router.History.{
  Input, connects, receives, disconnects, idle, step, run, AreAllowed, run_started-RouterInv,
}
use synergy_hogsback.Router.Signals.{hear_all}
use synergy_hogsback.Router.Follow.{signals_follow_table}
use synergy_hogsback.Router.Delivery.{IsSent, forward_lem}
use synergy_hogsback.Router.Relay.{forward, notify_other_nodes}
use synergy_hogsback.Router.Notify.{copies, notify_other_nodes_once}
use synergy_hogsback.Router.Hops.{TableCounts, Counts, integrate_advertisement-Counts}

abbrev routes : Index route_less
routes = listed route_less

abbrev peers : Index connection_less
peers = listed connection_less

abbrev way : ℕ → ℕ → List ℕ → ℕ → RouteTableEntry
way dest cost path connection = record {
  route = record { dest = dest; cost = cost; path = path };
  connection = connection;
}

abbrev three_ways : List RouteTableEntry
three_ways = way 7 1 (2 ∷ []) 1 ∷ way 7 2 (3 ∷ 2 ∷ []) 2 ∷ way 7 4 (2 ∷ 4 ∷ 5 ∷ 6 ∷ []) 1 ∷ []

abbrev better : RouteTableEntry
better = way 7 1 (3 ∷ []) 2

three_ways-IsValid : IsValid three_ways
unfolding route_less path_less
three_ways-IsValid = record {
  sorted = ((refl, (refl, tt)), ((refl, tt), (tt, tt)));
  limited = λ d. ground arith;
}

better-IsNew : IsNew better three_ways
unfolding route_less path_less
better-IsNew = refl

-- The dearest of the three routes makes way.
install_test :
    (install routes three_ways better).table
    ≡ way 7 1 (2 ∷ []) 1 ∷ better ∷ way 7 2 (3 ∷ 2 ∷ []) 2 ∷ []
unfolding install make_way erase_found erase rank place listed route_less path_less
install_test = refl

install-IsValid_example : IsValid (install routes three_ways better).table
install-IsValid_example = install-IsValid routes three_ways better three_ways-IsValid

install_keeps_best_example :
    (rows_for 7 (install routes three_ways better).table ≡ best better (rows_for 7 three_ways))
    × ((d : ℕ)
        → d ≢ 7
        → rows_for d (install routes three_ways better).table ≡ rows_for d three_ways)
install_keeps_best_example =
    install_keeps_best routes three_ways better three_ways-IsValid better-IsNew

install_result_example :
    ((install routes three_ways better).installed ≡ true
      → IsNew better three_ways
        × (any (equivalent route_less better) (install routes three_ways better).table ≡ true))
    × ((install routes three_ways better).installed ≡ false
        → (install routes three_ways better).table ≡ three_ways)
install_result_example = install_result routes three_ways better three_ways-IsValid

abbrev second : Connection
second = record { id = 1; remote_ip = 20; local_ip = 10 }

abbrev third : Connection
third = record { id = 2; remote_ip = 30; local_ip = 10 }

abbrev advert : RouteAdvertisement
advert = record {
  sender = 2;
  routes =
      record { dest = 2; cost = 0; path = [] }
      ∷ record { dest = 7; cost = 2; path = 4 ∷ 5 ∷ [] }
      ∷ record { dest = 8; cost = 1; path = 1 ∷ [] }
      ∷ [];
}

abbrev history : List Input
history =
    connects second
    ∷ receives default_header (message (route_advertisement advert)) second
    ∷ disconnects second
    ∷ []

history-AreAllowed : AreAllowed routes peers (start idle 1 "a") history
unfolding start step add listed connection_less insert_unique place first on_connected on_message
    handle
history-AreAllowed = (tt, ((refl, omega arith), (tt, tt)))

run_started-RouterInv_example : RouterInv (run routes peers (start idle 1 "a") history).0
run_started-RouterInv_example = run_started-RouterInv routes peers 1 "a" history history-AreAllowed

signals_follow_table_example :
    reaches 7 (run routes peers (start idle 1 "a") history).0.route_table
    ≡ hear_all 7 false (run routes peers (start idle 1 "a") history).1
signals_follow_table_example = signals_follow_table routes peers 7 1 "a" history history-AreAllowed

abbrev node : Router
node = record {
  id = 1;
  name = "a";
  running = true;
  route_table = three_ways;
  connections = second ∷ third ∷ [];
}

node-RouterInv : RouterInv node
unfolding connection_less
node-RouterInv = record {
  valid = three_ways-IsValid;
  rows_sound = ground arith;
  connections_sorted = ((refl, tt), (tt, tt));
}

abbrev claim : Message
claim = record { body = server_claim 4 9; type = 5; ttl = 1 }

abbrev to_seven : MessageHeader
to_seven = record default_header { dest = 7 }

forward_lem_example :
    (true ≡ false → forward routes node to_seven claim ≡ (false, []))
    × (true ≡ true → IsSent node to_seven claim (forward routes node to_seven claim))
forward_lem_example = forward_lem routes node node-RouterInv to_seven claim

notify_other_nodes_once_example :
    (events : List Event) × (notify_other_nodes routes node claim ≡ some events)
    × ((d : ℕ) → copies d events ≡ (if reaches d three_ways then 1 else 0))
unfolding header
notify_other_nodes_once_example =
    notify_other_nodes_once routes node node-RouterInv claim
      (record default_header { type = 5; ttl = 1 }) refl refl

integrate_advertisement-Counts_example :
    TableCounts (integrate_advertisement routes node advert second).0
    × All Counts
        (integrate_all routes 2 second
          (record { router = node; events = []; advert = []; routes_updated = false })
          advert.routes).advert
integrate_advertisement-Counts_example =
    integrate_advertisement-Counts routes node advert second three_ways-IsValid
      (refl, (refl, (refl, tt))) (omega arith)
