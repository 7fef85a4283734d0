-- ===== src/Router/Install.antt =====
-- `Router::integrate` for one route and for an advertisement, and `flood`.
use synergy_hogsback.Prelude.{
  ℕ, ◌+◌, ◌-◌, ◌%◌, ◌^◌, Bool, true, false, ◌&&◌, ◌||◌, not, ltb, leb, ◌==◌, if◌then◌else◌, List,
  [], ◌∷◌, ◌++◌, Option, none, some, get_elem?,
}
use synergy_hogsback.Index.{Index, rank, erase}
use synergy_hogsback.Message.{Route, RouteAdvertisement, Message, message, route_advertisement}
use synergy_hogsback.Router.State.{
  RouteTableEntry, Connection, route_less, Router, Event, sent, reachable, contains, reaches,
}

abbrev pub dest_route_limit : ℕ
dest_route_limit = 3

-- The loop of `flood` and `broadcast` over a copy of the connection table.
unfoldable pub send_where : (Connection → Bool) → Bool → Message → List Connection → List Event
send_where p running m [] = []
send_where p running m (c ∷ cs) =
    let rest = send_where p running m cs in
    if not running then [] else if p c then sent c.id m ∷ rest else rest

unfoldable pub flood : Router → Message → ℕ → List Event
unfolding send_where
flood r m source = send_where (λ c. not (c.id == source)) r.running m r.connections

unfoldable pub broadcast : Router → Message → List Event
unfolding send_where
broadcast r m = send_where (λ c. true) r.running m r.connections

-- The outcome of a call that may install a route.
pub record Installed : Type 0 where
  pub table : List RouteTableEntry
  pub installed : Bool

-- The route that a neighbour's route becomes here: one hop longer, through the neighbour.
unfoldable pub hop : ℕ → Route → Route
hop sender route = record {
  dest = route.dest;
  cost = (route.cost + 1) % 2 ^ 32;
  path = sender ∷ route.path;
}

-- A route that leads to or through this node.
unfoldable pub loops_back : ℕ → Route → Bool
loops_back id route = route.dest == id || contains id route.path

unfoldable pub erase_found : Option RouteTableEntry → List RouteTableEntry → List RouteTableEntry
erase_found none rows = rows
erase_found (some bumped) rows = erase route_less bumped rows

-- The end of `integrate`, when the destination had its full number of routes and the new one
-- was inserted: either the last of them or the new one goes.
unfoldable pub make_way : RouteTableEntry → ℕ → List RouteTableEntry → Installed
unfolding erase_found
make_way entry rank_higher rows =
    let rank_installed = rank (λ x. route_less x entry) rows in
    let second = rank (λ x. leb x.dest entry.dest) rows in
    let without_last = erase_found (get_elem? rows (second - 1)) rows in
    if ltb rank_installed rank_higher
    then record { table = without_last; installed = true }
    else record { table = erase route_less entry rows; installed = false }

-- The variables of the loop over an advertisement's routes.
pub record Advertising : Type 0 where
  pub router : Router
  pub events : List Event
  pub advert : List Route
  pub routes_updated : Bool

module _ (table_index : Index route_less) where
  open table_index use {insert}

  -- The table part of `bool Router::integrate (Route, source)`.
  unfoldable pub install : List RouteTableEntry → RouteTableEntry → Installed
  install rows entry =
      let rank_lower = rank (λ x. ltb x.dest entry.dest) rows in
      let rank_higher = rank (λ x. leb x.dest entry.dest) rows in
      let full = reaches entry.dest rows && (rank_higher - rank_lower) == dest_route_limit in
      let (rows', inserted) = insert entry rows in
      if full && inserted
      then make_way entry rank_higher rows'
      else record { table = rows'; installed = inserted }

  -- `bool Router::integrate (Route, source)`: the router, the signals, the result.
  unfoldable pub integrate : Router → Route → Connection → Router × List Event × Bool
  integrate r route source =
      let entry : RouteTableEntry = record { route = route; connection = source.id } in
      let out = install r.route_table entry in
      let new_destination = not (reaches route.dest r.route_table) && out.installed in
      (
        record r { route_table = out.table },
        (if new_destination then reachable route.dest ∷ [] else []),
        out.installed,
      )

  unfoldable pub integrate_one : ℕ → Connection → Advertising → Route → Advertising
  integrate_one sender source s route =
      let new_route = hop sender route in
      let (router', events', installed) = integrate s.router new_route source in
      let after : Advertising = record {
        router = router';
        events = s.events ++ events';
        advert = (if installed then s.advert ++ new_route ∷ [] else s.advert);
        routes_updated = s.routes_updated || installed;
      } in
      if loops_back s.router.id route then s else after

  unfoldable pub integrate_all : ℕ → Connection → Advertising → List Route → Advertising
  integrate_all sender source s [] = s
  integrate_all sender source s (route ∷ routes) =
      integrate_all sender source (integrate_one sender source s route) routes

  -- `void Router::integrate (RouteAdvertisement&, source)`
  unfoldable pub integrate_advertisement :
      Router → RouteAdvertisement → Connection → Router × List Event
  integrate_advertisement r ra source =
      let s =
        integrate_all ra.sender source
          (record { router = r; events = []; advert = []; routes_updated = false }) ra.routes in
      let advert = message (route_advertisement (record { sender = r.id; routes = s.advert })) in
      let done =
        if s.routes_updated then s.events ++ flood s.router advert source.id else s.events in
      if ra.sender == r.id then (r, []) else (s.router, done)
