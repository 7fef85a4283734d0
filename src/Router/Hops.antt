-- ===== src/Router/Hops.antt =====
-- Router.cpp, the costs of routes: in the table, in advertisements, and in what neighbours are told.
use synergy_hogsback.Prelude.{
  ℕ, ◌-◌, ◌^◌, ◌<◌, ◌≡◌, refl, List, [], ◌∷◌, ◌++◌, arith, All, All-append, length, Bool-cases, inl,
  inr, map, true, false, Bool, ◌==◌, if◌then◌else◌,
}
use synergy_hogsback.Index.{Index}
use synergy_hogsback.Message.{Route, RouteAdvertisement}
use synergy_hogsback.Router.State.{RouteTableEntry, Connection, route_less, Router}
use synergy_hogsback.Router.Valid.{IsValid, install-IsValid, install-All}
use synergy_hogsback.Router.Install.{
  hop, loops_back, install, integrate, Advertising, integrate_one, integrate_all,
  integrate_advertisement,
}
use synergy_hogsback.Router.Handler.{known_routes}

-- The cost counts the hops.
abbrev pub Counts : Route → Type 0
Counts route = route.cost ≡ length route.path

-- So does that of every route of the list, and no path fills 32 bits.
abbrev pub AllCount : List Route → Type 0
AllCount = All (λ route. Counts route × (length route.path < 2 ^ 32 - 1))

abbrev pub TableCounts : Router → Type 0
TableCounts r = All (λ x. Counts x.route) r.route_table

-- What a new neighbour is told counts its hops, if the table does.
pub known_routes-Counts : (r : Router) → TableCounts r → All Counts (known_routes r)
unfolding known_routes
known_routes-Counts r h = (refl, told r.route_table h)
  where
    told :
        (t : List RouteTableEntry) → All (λ x. Counts x.route) t → All Counts (map (λ x. x.route) t)
    told [] k = tt
    told (x ∷ t) k = (k.0, told t k.1)

hop-Counts :
    (sender : ℕ) (route : Route)
    → Counts route × (length route.path < 2 ^ 32 - 1)
    → Counts (hop sender route)
unfolding hop
hop-Counts sender route h = omega arith

module _ (table_index : Index route_less) where
  abbrev AdvertisingCounts : Advertising → Type 0
  AdvertisingCounts s = IsValid s.router.route_table × TableCounts s.router × All Counts s.advert

  integrate_one-Counts :
      (sender : ℕ) (source : Connection) (s : Advertising) (route : Route)
      → AdvertisingCounts s
      → Counts route × (length route.path < 2 ^ 32 - 1)
      → AdvertisingCounts (integrate_one table_index sender source s route)
  unfolding integrate_one integrate
  integrate_one-Counts sender source s route h k =
      let entry : RouteTableEntry = record { route = hop sender route; connection = source.id } in
      let counted = hop-Counts sender route k in
      let table = s.router.route_table in
      elim (Bool-cases (loops_back s.router.id route)) [
        | inl loops ↦ rw (loops, integrate_one) h
        | inr fine ↦
            rw (fine, integrate_one)
              (
                install-IsValid table_index table entry h.0,
                install-All table_index table entry h.0 (λ x. Counts x.route) counted h.1,
                advert_counts (install table_index table entry).installed counted,
              )
      ]
    where
      advert_counts :
          (done : Bool)
          → Counts (hop sender route)
          → All Counts (if done then s.advert ++ hop sender route ∷ [] else s.advert)
      advert_counts true c = All-append Counts s.advert (hop sender route ∷ []) h.2 (c, tt)
      advert_counts false c = h.2

  pub integrate_all-Counts :
      (sender : ℕ) (source : Connection) (s : Advertising) (routes : List Route)
      → AdvertisingCounts s
      → AllCount routes
      → AdvertisingCounts (integrate_all table_index sender source s routes)
  unfolding integrate_all
  integrate_all-Counts sender source s [] h k = h
  integrate_all-Counts sender source s (route ∷ routes) h k =
      integrate_all-Counts sender source (integrate_one table_index sender source s route) routes
        (integrate_one-Counts sender source s route h k.0) k.1

  -- If the table is valid, the costs in it and in an advertisement are numbers of hops, and its paths are
  -- shorter than 2 ^ 32 - 1, then so are the costs in the table after the advertisement and
  -- those of the routes that the loop collects for the neighbours.
  pub integrate_advertisement-Counts :
      (r : Router) (ra : RouteAdvertisement) (source : Connection)
      → IsValid r.route_table
      → TableCounts r
      → AllCount ra.routes
      → TableCounts (integrate_advertisement table_index r ra source).0
        × All Counts
            (integrate_all table_index ra.sender source
              (record { router = r; events = []; advert = []; routes_updated = false })
              ra.routes).advert
  unfolding integrate_advertisement
  integrate_advertisement-Counts r ra source v h k =
      let out =
        integrate_all-Counts ra.sender source
          (record { router = r; events = []; advert = []; routes_updated = false }) ra.routes
          (v, h, tt) k in
      elim (Bool-cases (ra.sender == r.id)) [
        | inl own ↦ rw (own, integrate_advertisement) (h, out.2)
        | inr other ↦ rw (other, integrate_advertisement) (out.1, out.2)
      ]
