-- ===== src/Router/History.antt =====
-- Histories of a router: the signal handlers that `Router::add` connects, called in any order.
use Prim.Native.String.{String}
use synergy_hogsback.Prelude.{
  ℕ, ◌≡◌, ◌≢◌, true, false, not, ◌&&◌, ◌==◌, List, [], ◌∷◌, ◌++◌, arith, All-map, Bool-cases, inl,
  inr, any,
}
use synergy_hogsback.Index.{Index, equivalent, place}
use synergy_hogsback.Index.Laws.{place-IsSorted}
use synergy_hogsback.Message.{
  Message, MessageHeader, Body, hello_message, route_advertisement, route_revocation,
  broadcast_dest,
}
use synergy_hogsback.Router.State.{Connection, route_less, connection_less, Router, Event}
use synergy_hogsback.Router.Order.{connection_less-IsStrict}
use synergy_hogsback.Router.Handler.{
  add, on_disconnect, on_message, handle, remove_all, shutdown, start,
}
use synergy_hogsback.Router.Invariant.{is_live, RouterInv, integrate_advertisement-RouterInv}
use synergy_hogsback.Router.Withdraw.{remove}
use synergy_hogsback.Router.Removal.{remove-RouterInv, integrate_revocation-RouterInv}

pub data Input : Type 0 where
  connects : Connection → Input
  receives : MessageHeader → Message → Connection → Input
  disconnects : Connection → Input
  shuts_down : Input

-- A router before it is started.
abbrev pub idle : Router
idle = record { id = 0; name = String.[]; running = false; route_table = []; connections = [] }

-- A message comes from a connection that the router has, and whose id is not 0.
abbrev pub IsAllowed : Router → Input → Type 0
IsAllowed r (connects c) = Unit
IsAllowed r (receives h m source) = (is_live source.id r.connections ≡ true) × (source.id ≢ 0)
IsAllowed r (disconnects c) = Unit
IsAllowed r shuts_down = Unit

module _ (table_index : Index route_less) where
  handle-RouterInv :
      (r : Router) (b : Body) (source : Connection)
      → RouterInv r
      → is_live source.id r.connections ≡ true
      → source.id ≢ 0
      → RouterInv (handle table_index r b source).0
  unfolding handle
  handle-RouterInv r (hello_message id name) source v live z =
      ground (arith, remove-RouterInv table_index r source v)
  handle-RouterInv r (route_advertisement ra) source v live z =
      integrate_advertisement-RouterInv table_index r ra source v live z
  handle-RouterInv r (route_revocation rr) source v live z =
      integrate_revocation-RouterInv table_index r rr source v
  handle-RouterInv r _ source v live z = v

  on_message-RouterInv :
      (r : Router) (h : MessageHeader) (m : Message) (source : Connection)
      → RouterInv r
      → is_live source.id r.connections ≡ true
      → source.id ≢ 0
      → RouterInv (on_message table_index r h m source).0
  unfolding on_message
  on_message-RouterInv r h m source v live z =
      elim (Bool-cases (not (h.dest == r.id) && not (h.dest == broadcast_dest))) [
        | inl relay ↦ rw (relay, on_message) v
        | inr here ↦ rw (here, on_message) (handle-RouterInv r m.body source v live z)
      ]

  remove_all-RouterInv :
      (r : Router) (cs : List Connection) → RouterInv r → RouterInv (remove_all table_index r cs).0
  unfolding remove_all
  remove_all-RouterInv r [] v = v
  remove_all-RouterInv r (c ∷ cs) v =
      remove_all-RouterInv (remove table_index r c).0 cs (remove-RouterInv table_index r c v)

is_live-place :
    (d : ℕ) (c : Connection) (cs : List Connection)
    → is_live d cs ≡ true
    → is_live d (place connection_less c cs) ≡ true
unfolding place
is_live-place d c [] h = ground arith
is_live-place d c (x ∷ cs) h = ground (arith, is_live-place d c cs)

add_lem :
    (connection_index : Index connection_less) (r : Router) (c : Connection)
    → RouterInv r
    → RouterInv (add connection_index r c).0
unfolding add
add_lem connection_index r c v =
    elim (Bool-cases (any (equivalent connection_less c) r.connections)) [
      | inl known ↦
          rw (connection_index.insert_refused c r.connections v.connections_sorted known) v
      | inr new ↦
          rw (connection_index.insert_placed c r.connections v.connections_sorted new) (record {
            valid = v.valid;
            rows_sound =
                All-map
                  (λ x h. record {
                    dest_ne = h.dest_ne;
                    path_free = h.path_free;
                    connection_live = is_live-place x.connection c r.connections h.connection_live;
                    connection_ne = h.connection_ne;
                  })
                  r.route_table v.rows_sound;
            connections_sorted =
                place-IsSorted connection_less-IsStrict c r.connections v.connections_sorted new;
          })
    ]

pub started-RouterInv : (id : ℕ) (name : String) → RouterInv (start idle id name)
unfolding start
started-RouterInv id name = record {
  valid = record { sorted = tt; limited = λ d. omega arith };
  rows_sound = tt;
  connections_sorted = tt;
}

module _ (table_index : Index route_less) (connection_index : Index connection_less) where
  unfoldable pub step : Router → Input → Router × List Event
  step r (connects c) = add connection_index r c
  step r (receives h m source) = on_message table_index r h m source
  step r (disconnects c) = on_disconnect table_index r c
  step r shuts_down = shutdown table_index r

  unfoldable pub run : Router → List Input → Router × List Event
  run r [] = (r, [])
  run r (i ∷ is) =
      let (after, events) = step r i in
      let (final, later) = run after is in (final, events ++ later)

  abbrev pub AreAllowed : Router → List Input → Type 0
  AreAllowed r [] = Unit {0}
  AreAllowed r (i ∷ is) = IsAllowed r i × AreAllowed (step r i).0 is

  pub step-RouterInv :
      (r : Router) (i : Input) → RouterInv r → IsAllowed r i → RouterInv (step r i).0
  unfolding step
  step-RouterInv r (connects c) v ok = add_lem connection_index r c v
  step-RouterInv r (receives h m source) v ok =
      on_message-RouterInv table_index r h m source v ok.0 ok.1
  step-RouterInv r (disconnects c) v ok = unfold on_disconnect in remove-RouterInv table_index r c v
  step-RouterInv r shuts_down v ok =
      unfold shutdown in
      remove_all-RouterInv table_index (record r { running = false }) r.connections
        (record {
          valid = v.valid;
          rows_sound = v.rows_sound;
          connections_sorted = v.connections_sorted;
        })

  run-RouterInv :
      (r : Router) (is : List Input) → RouterInv r → AreAllowed r is → RouterInv (run r is).0
  unfolding run
  run-RouterInv r [] v ok = v
  run-RouterInv r (i ∷ is) v ok = run-RouterInv (step r i).0 is (step-RouterInv r i v ok.0) ok.1

  -- After any history of a started router, its table is sorted with at most three routes for a
  -- destination, and each row leads to another node, by a path without this node, over a
  -- connection that the router still has; so no row points to a connection that is gone.
  -- Messages are assumed to come from connections that the router has, with ids other than 0.
  pub run_started-RouterInv :
      (id : ℕ) (name : String) (is : List Input)
      → AreAllowed (start idle id name) is
      → RouterInv (run (start idle id name) is).0
  run_started-RouterInv id name is =
      run-RouterInv (start idle id name) is (started-RouterInv id name)
