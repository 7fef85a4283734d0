-- ===== src/Router/Withdraw.antt =====
-- `Router::integrate` for a revocation, and `Router::remove`.
use synergy_hogsback.Prelude.{
  ℕ, Bool, true, false, not, ltb, ◌==◌, if◌then◌else◌, List, [], ◌∷◌, ◌++◌, Option, none, some,
  keep, map,
}
use synergy_hogsback.Index.{Index, erase, equivalent}
use synergy_hogsback.Message.{Route, RouteAdvertisement, message, route_revocation}
use synergy_hogsback.Router.State.{
  RouteTableEntry, Connection, route_less, Router, Event, stopped, unreachable, reaches,
}
use synergy_hogsback.Router.Install.{hop, loops_back, flood, broadcast}

-- `std::sort` of numbers.
unfoldable pub sort_insert : ℕ → List ℕ → List ℕ
sort_insert a [] = a ∷ []
sort_insert a (x ∷ xs) = let later = x ∷ sort_insert a xs in if ltb x a then later else a ∷ x ∷ xs

unfoldable pub sort : List ℕ → List ℕ
sort [] = []
sort (x ∷ xs) = sort_insert x (sort xs)

-- `std::unique`: of numbers side by side that are equal the first stays.
unfoldable pub unique_after : ℕ → List ℕ → List ℕ
unique_after a [] = []
unique_after a (x ∷ xs) =
    let same = unique_after a xs in
    let next = x ∷ unique_after x xs in if a == x then same else next

unfoldable pub unique : List ℕ → List ℕ
unique [] = []
unique (x ∷ xs) = x ∷ unique_after x xs

-- The affected destinations as a set, less those that there is still a way to.
unfoldable pub lost_dests : List ℕ → List RouteTableEntry → List ℕ
lost_dests effected table = keep (λ d. not (reaches d table)) (unique (sort effected))

-- A route as the key that `find` takes.
abbrev pub as_key : Route → RouteTableEntry
as_key route = record { route = route; connection = 0 }

-- The variables of the loop over a revocation's routes.
pub record Withdrawing : Type 0 where
  pub table : List RouteTableEntry
  pub effected : List ℕ
  pub routes : List Route
  pub routes_updated : Bool

unfoldable pub withdraw_found : Route → Option RouteTableEntry → Withdrawing → Withdrawing
withdraw_found new_route none s = record s { routes = s.routes ++ new_route ∷ [] }
withdraw_found new_route (some entry) s = record {
  table = erase route_less entry s.table;
  effected = s.effected ++ entry.dest ∷ [];
  routes = s.routes ++ new_route ∷ [];
  routes_updated = true;
}

-- `connections_.erase (it)` of the connection that `std::find` found.
unfoldable pub forget : ℕ → List Connection → List Connection
forget c [] = []
forget c (x ∷ xs) = let later = x ∷ forget c xs in if x.id == c then xs else later

module _ (table_index : Index route_less) where
  open table_index use {find, group}

  unfoldable pub withdraw_one : ℕ → ℕ → Withdrawing → Route → Withdrawing
  unfolding withdraw_found
  withdraw_one id sender s route =
      let new_route = hop sender route in
      let entry = find (equivalent route_less (as_key new_route)) s.table in
      if loops_back id route then s else withdraw_found new_route entry s

  unfoldable pub withdraw_all : ℕ → ℕ → Withdrawing → List Route → Withdrawing
  withdraw_all id sender s [] = s
  withdraw_all id sender s (route ∷ routes) =
      withdraw_all id sender (withdraw_one id sender s route) routes

  -- `void Router::integrate (RouteRevocation&, source)`
  unfoldable pub integrate_revocation :
      Router → RouteAdvertisement → Connection → Router × List Event
  integrate_revocation r rr source =
      let s =
        withdraw_all r.id rr.sender
          (record { table = r.route_table; effected = []; routes = []; routes_updated = false })
          rr.routes in
      let after = record r { route_table = s.table } in
      let revocation = message (route_revocation (record { sender = r.id; routes = s.routes })) in
      let forwarded = if s.routes_updated then flood after revocation source.id else [] in
      if rr.sender == r.id
      then (r, [])
      else (after, forwarded ++ map unreachable (lost_dests s.effected s.table))

  -- `Router::remove`
  unfoldable pub remove : Router → Connection → Router × List Event
  remove r c =
      let dead_routes = group (λ x. x.connection == c.id) r.route_table in
      let table = keep (λ x. not (x.connection == c.id)) r.route_table in
      let after = record r { route_table = table; connections = forget c.id r.connections } in
      let revocation =
        message
          (route_revocation (record { sender = r.id; routes = map (λ x. x.route) dead_routes })) in
      let announced : List Event = elim dead_routes [
        | [] ↦ []
        | _ ∷ _ ↦ broadcast after revocation
      ] in
      (
        after,
        stopped c.id ∷ announced
            ++ map unreachable (lost_dests (map (λ x. x.dest) dead_routes) table),
      )
