-- ===== src/Router/Invariant.antt =====
-- Router.cpp, the invariant of a router: a valid table, and rows that other nodes are reached by over
-- connections that the router has.
use synergy_hogsback.Prelude.{
  ℕ, ◌≡◌, ◌≢◌, Bool, true, false, ◌==◌, List, [], ◌∷◌, arith, All, any, Bool-cases, inl, inr,
}
use synergy_hogsback.Index.{Index, IsSorted}
use synergy_hogsback.Message.{Route, RouteAdvertisement}
use synergy_hogsback.Router.State.{
  RouteTableEntry, Connection, route_less, connection_less, Router, contains,
}
use synergy_hogsback.Router.Valid.{IsValid, install-IsValid, install-All}
use synergy_hogsback.Router.Install.{
  integrate, hop, loops_back, Advertising, integrate_one, integrate_all, integrate_advertisement,
}

abbrev pub is_live : ℕ → List Connection → Bool
is_live c = any (λ x. x.id == c)

-- A row that may stand in the table of node `id` with these connections.
pub record IsSound (id : ℕ) (connections : List Connection) (x : RouteTableEntry) : Type 0 where
  pub dest_ne : x.dest ≢ id
  pub path_free : contains id x.path ≡ false
  pub connection_live : is_live x.connection connections ≡ true
  pub connection_ne : x.connection ≢ 0

pub record RouterInv (r : Router) : Type 0 where
  pub valid : IsValid r.route_table
  pub rows_sound : All (IsSound r.id r.connections) r.route_table
  pub connections_sorted : IsSorted connection_less r.connections

module _ (table_index : Index route_less) where
  pub integrate-RouterInv :
      (r : Router) (route : Route) (source : Connection)
      → RouterInv r
      → IsSound r.id r.connections (record { route = route; connection = source.id })
      → RouterInv (integrate table_index r route source).0
  unfolding integrate
  integrate-RouterInv r route source v h =
      let entry : RouteTableEntry = record { route = route; connection = source.id } in
      record {
        valid = install-IsValid table_index r.route_table entry v.valid;
        rows_sound =
            install-All table_index r.route_table entry v.valid (IsSound r.id r.connections) h
              v.rows_sound;
        connections_sorted = v.connections_sorted;
      }

  -- The loop leaves the node's id and its connections alone.
  pub integrate_one_frame :
      (sender : ℕ) (source : Connection) (s : Advertising) (route : Route)
      → ((integrate_one table_index sender source s route).router.id ≡ s.router.id)
        × ((integrate_one table_index sender source s route).router.connections
            ≡ s.router.connections)
  unfolding integrate_one integrate
  integrate_one_frame sender source s route = ground arith

  hop-IsSound :
      (id sender : ℕ) (connections : List Connection) (source : Connection) (route : Route)
      → sender ≢ id
      → loops_back id route ≡ false
      → is_live source.id connections ≡ true
      → source.id ≢ 0
      → IsSound id connections (record { route = hop sender route; connection = source.id })
  unfolding hop loops_back
  hop-IsSound id sender connections source route ne l live z = ground arith

  integrate_one-RouterInv :
      (sender : ℕ) (source : Connection) (s : Advertising) (route : Route)
      → RouterInv s.router
      → sender ≢ s.router.id
      → is_live source.id s.router.connections ≡ true
      → source.id ≢ 0
      → RouterInv (integrate_one table_index sender source s route).router
  unfolding integrate_one
  integrate_one-RouterInv sender source s route v ne live z =
      elim (Bool-cases (loops_back s.router.id route)) [
        | inl loops ↦ rw (loops, integrate_one) v
        | inr fine ↦
            rw (fine, integrate_one)
              (integrate-RouterInv s.router (hop sender route) source v
                (hop-IsSound s.router.id sender s.router.connections source route ne fine live z))
      ]

  pub integrate_all-RouterInv :
      (sender : ℕ) (source : Connection) (s : Advertising) (routes : List Route)
      → RouterInv s.router
      → sender ≢ s.router.id
      → is_live source.id s.router.connections ≡ true
      → source.id ≢ 0
      → RouterInv (integrate_all table_index sender source s routes).router
  unfolding integrate_all
  integrate_all-RouterInv sender source s [] v ne live z = v
  integrate_all-RouterInv sender source s (route ∷ routes) v ne live z =
      let frame = integrate_one_frame sender source s route in
      integrate_all-RouterInv sender source (integrate_one table_index sender source s route) routes
        (integrate_one-RouterInv sender source s route v ne live z) (rw frame.0 ne)
        (rw frame.1 live) z

  pub integrate_advertisement-RouterInv :
      (r : Router) (ra : RouteAdvertisement) (source : Connection)
      → RouterInv r
      → is_live source.id r.connections ≡ true
      → source.id ≢ 0
      → RouterInv (integrate_advertisement table_index r ra source).0
  unfolding integrate_advertisement
  integrate_advertisement-RouterInv r ra source v live z = elim (Bool-cases (ra.sender == r.id)) [
    | inl own ↦ rw (own, integrate_advertisement) v
    | inr other ↦
        rw (other, integrate_advertisement)
          (integrate_all-RouterInv ra.sender source
            (record { router = r; events = []; advert = []; routes_updated = false }) ra.routes v
            (ground arith) live z)
  ]
