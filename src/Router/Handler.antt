-- ===== src/Router/Handler.antt =====
-- The life of a connection in the router: `add` with its three signal handlers, the message
-- handlers, `add_peer`, `start` and `shutdown`. Name resolution, TLS and the accept and connect
-- threads are outside; `connecting` stands for the connect thread that `add_peer` spawns.
use Prim.Native.String.{String}
use synergy_hogsback.Prelude.{
  ℕ, true, false, ◌&&◌, not, ◌==◌, if◌then◌else◌, List, [], ◌∷◌, ◌++◌, map, any,
}
use synergy_hogsback.Index.{Index}
use synergy_hogsback.Message.{
  Route, Body, Message, MessageHeader, message, unknown_message, hello_message, route_advertisement,
  route_revocation, proxy_client_connect, server_claim, core_message, broadcast_dest,
}
use synergy_hogsback.Router.State.{
  Connection, route_less, connection_less, Router, Event, sent, received, connecting,
}
use synergy_hogsback.Router.Install.{integrate_advertisement}
use synergy_hogsback.Router.Withdraw.{integrate_revocation, remove}
use synergy_hogsback.Router.Relay.{forward}

-- The routes that a new neighbour is told: this node itself, and every known route.
unfoldable pub known_routes : Router → List Route
known_routes r = (record { dest = r.id; cost = 0; path = [] }) ∷ map (λ x. x.route) r.route_table

-- The `on_connected` handler.
unfoldable pub on_connected : Router → Connection → List Event
on_connected r c =
    sent c.id (message (route_advertisement (record { sender = r.id; routes = known_routes r })))
    ∷ []

-- `Router::add_peer`, up to the spawning of the connect thread.
unfoldable pub add_peer : Router → ℕ → List Event
add_peer r address =
    if any (λ c. c.remote_ip == address) r.connections then [] else connecting address ∷ []

unfoldable pub start : Router → ℕ → String → Router
start r id name = if r.running then r else record r { id = id; name = name; running = true }

module _ (connection_index : Index connection_less) where
  -- `Router::add`
  unfoldable pub add : Router → Connection → Router × List Event
  add r c =
      let (connections, inserted) = connection_index.insert c r.connections in
      if inserted then (record r { connections = connections }, on_connected r c) else (r, [])

module _ (table_index : Index route_less) where
  -- The `on_disconnect` handler.
  unfoldable pub on_disconnect : Router → Connection → Router × List Event
  on_disconnect r c =
      let (after, events) = remove table_index r c in (after, events ++ add_peer after c.remote_ip)

  -- `MessageHandler`, one clause for each alternative of the body.
  unfoldable pub handle : Router → Body → Connection → Router × List Event
  handle r (unknown_message bytes) source = (r, [])
  handle r (hello_message id name) source =
      if id == r.id then remove table_index r source else (r, [])
  handle r (route_advertisement ra) source = integrate_advertisement table_index r ra source
  handle r (route_revocation rr) source = integrate_revocation table_index r rr source
  handle r (proxy_client_connect screen) source = (r, [])
  handle r (server_claim profile_id screen_id) source = (r, [])
  handle r (core_message bytes) source = (r, [])

  -- The `on_message` handler.
  unfoldable pub on_message : Router → MessageHeader → Message → Connection → Router × List Event
  on_message r h m source =
      let (after, events) = handle r m.body source in
      if not (h.dest == r.id) && not (h.dest == broadcast_dest)
      then (r, (forward table_index r h m).1)
      else (after, events ++ received m h.source ∷ [])

  unfoldable pub remove_all : Router → List Connection → Router × List Event
  remove_all r [] = (r, [])
  remove_all r (c ∷ cs) =
      let (after, events) = remove table_index r c in
      let (final, later) = remove_all after cs in (final, events ++ later)

  -- `Router::shutdown`. The handlers that it polls, here and while connections stop, are not run inside
  -- it; they may run before it and after it.
  unfoldable pub shutdown : Router → Router × List Event
  shutdown r = remove_all (record r { running = false }) r.connections
