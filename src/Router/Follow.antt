-- ===== src/Router/Follow.antt =====
-- Router.cpp, the reachability signals over whole histories.
use Prim.Native.String.{String}
use synergy_hogsback.Prelude.{ℕ, ◌≡◌, refl, sym, ap, ◌∙◌, Bool, false, List, [], ◌∷◌, arith}
use synergy_hogsback.Index.{Index}
use synergy_hogsback.Message.{
  Message, MessageHeader, Body, hello_message, route_advertisement, route_revocation,
}
use synergy_hogsback.Router.State.{
  Connection, route_less, connection_less, Router, reaches, received,
}
use synergy_hogsback.Router.Handler.{
  add, add_peer, on_connected, on_disconnect, on_message, handle, remove_all, shutdown, start,
}
use synergy_hogsback.Router.Relay.{forward}
use synergy_hogsback.Router.Withdraw.{remove}
use synergy_hogsback.Router.Invariant.{RouterInv}
use synergy_hogsback.Router.Signals.{hear_all, hear_all-append}
use synergy_hogsback.Router.Tracking.{
  Tracks, integrate_advertisement-Tracks, integrate_revocation-Tracks, remove-Tracks,
}
use synergy_hogsback.Router.History.{
  Input, connects, receives, disconnects, shuts_down, idle, step, run, AreAllowed, step-RouterInv,
  started-RouterInv,
}

module _ (table_index : Index route_less) (d : ℕ) where
  handle-Tracks :
      (r : Router) (b : Body) (source : Connection)
      → RouterInv r
      → Tracks table_index d r (handle table_index r b source)
  unfolding handle
  handle-Tracks r (hello_message id name) source v =
      ground (arith, remove-Tracks table_index d r source)
  handle-Tracks r (route_advertisement ra) source v =
      integrate_advertisement-Tracks table_index d r ra source v.valid
  handle-Tracks r (route_revocation rr) source v =
      integrate_revocation-Tracks table_index d r rr source
  handle-Tracks r _ source v = refl

  hear_all-forward :
      (b : Bool) (r : Router) (h : MessageHeader) (m : Message)
      → hear_all d b (forward table_index r h m).1 ≡ b
  unfolding forward
  hear_all-forward b r h m = ground arith

  on_message-Tracks :
      (r : Router) (h : MessageHeader) (m : Message) (source : Connection)
      → RouterInv r
      → Tracks table_index d r (on_message table_index r h m source)
  unfolding on_message
  on_message-Tracks r h m source v =
      let out = handle table_index r m.body source in
      ground (
        arith,
        handle-Tracks r m.body source v,
        hear_all-forward (reaches d r.route_table) r h m,
        hear_all-append d (reaches d r.route_table) out.1 (received m h.source ∷ []),
      )

  on_disconnect-Tracks :
      (r : Router) (c : Connection) → Tracks table_index d r (on_disconnect table_index r c)
  unfolding on_disconnect add_peer
  on_disconnect-Tracks r c =
      let out = remove table_index r c in
      ground (
        arith,
        remove-Tracks table_index d r c,
        hear_all-append d (reaches d r.route_table) out.1 (add_peer out.0 c.remote_ip),
      )

  remove_all-Tracks :
      (r : Router) (cs : List Connection) → Tracks table_index d r (remove_all table_index r cs)
  unfolding remove_all
  remove_all-Tracks r [] = refl
  remove_all-Tracks r (c ∷ cs) =
      let out = remove table_index r c in
      let rest = remove_all table_index out.0 cs in
      remove_all-Tracks out.0 cs
      ∙ ap (λ b. hear_all d b rest.1) (remove-Tracks table_index d r c)
      ∙ sym (hear_all-append d (reaches d r.route_table) out.1 rest.1)

  add-Tracks :
      (connection_index : Index connection_less) (r : Router) (c : Connection)
      → Tracks table_index d r (add connection_index r c)
  unfolding add on_connected
  add-Tracks connection_index r c = ground arith

module _ (table_index : Index route_less) (connection_index : Index connection_less) (d : ℕ) where
  step-Tracks :
      (r : Router) (i : Input)
      → RouterInv r
      → Tracks table_index d r (step table_index connection_index r i)
  unfolding step shutdown
  step-Tracks r (connects c) v = add-Tracks table_index d connection_index r c
  step-Tracks r (receives h m source) v = on_message-Tracks table_index d r h m source v
  step-Tracks r (disconnects c) v = on_disconnect-Tracks table_index d r c
  step-Tracks r shuts_down v =
      remove_all-Tracks table_index d (record r { running = false }) r.connections

  run-Tracks :
      (r : Router) (is : List Input)
      → RouterInv r
      → AreAllowed table_index connection_index r is
      → Tracks table_index d r (run table_index connection_index r is)
  unfolding run
  run-Tracks r [] v ok = refl
  run-Tracks r (i ∷ is) v ok =
      let out = step table_index connection_index r i in
      let rest = run table_index connection_index out.0 is in
      run-Tracks out.0 is (step-RouterInv table_index connection_index r i v ok.0) ok.1
      ∙ ap (λ b. hear_all d b rest.1) (step-Tracks r i v)
      ∙ sym (hear_all-append d (reaches d r.route_table) out.1 rest.1)

  -- Over any history of a started router, whoever takes a node for unreachable at first and then
  -- follows `on_node_reachable` and `on_node_unreachable` believes at the end exactly what the
  -- route table says of that node. Messages come from connections that the router has.
  pub signals_follow_table :
      (id : ℕ) (name : String) (is : List Input)
      → AreAllowed table_index connection_index (start idle id name) is
      → reaches d (run table_index connection_index (start idle id name) is).0.route_table
        ≡ hear_all d false (run table_index connection_index (start idle id name) is).1
  unfolding start
  signals_follow_table id name is = run-Tracks (start idle id name) is (started-RouterInv id name)
