-- ===== src/Router/Tracking.antt =====
-- Router.cpp, the reachability signals of the handlers that change the table in several steps.
use mathlib.Core.Logic.{∥∥₁_elim}
use mathlib.Core.List.{Permᴰ}
use mathlib.Core.HLevel.{hedberg}
use native.Mathlib.Decide.{ℕ_discrete}
use synergy_hogsback.Prelude.{
  ℕ, ◌≡◌, refl, sym, ap, ◌∙◌, Bool, true, false, not, ◌||◌, ◌==◌, List, [], ◌∷◌, ◌++◌, arith, All,
  All-map, any, keep, map, Bool-cases, inl, inr, Option, none, some,
}
use synergy_hogsback.Index.{Index, equivalent, erase}
use synergy_hogsback.Message.{
  Route, RouteAdvertisement, Message, message, route_advertisement, route_revocation,
}
use synergy_hogsback.Router.State.{
  RouteTableEntry, Connection, route_less, Router, Event, unreachable, reaches, contains,
}
use synergy_hogsback.Router.Valid.{IsValid, install-IsValid}
use synergy_hogsback.Router.Install.{
  hop, loops_back, flood, broadcast, integrate, Advertising, integrate_one, integrate_all,
  integrate_advertisement,
}
use synergy_hogsback.Router.Withdraw.{
  lost_dests, as_key, withdraw_found, withdraw_one, withdraw_all, Withdrawing, integrate_revocation,
  remove, forget,
}
use synergy_hogsback.Router.Signals.{
  hear_all, hear_all-append, hear_all-send_where, hear_all-unreachable, contains-lost_dests,
  integrate_signals,
}

reaches_refl : (t : List RouteTableEntry) → All (λ x. reaches x.dest t ≡ true) t
reaches_refl [] = tt
reaches_refl (x ∷ t) = (ground arith, All-map (λ y h. ground arith) t (reaches_refl t))

equivalent-dest : (a b : RouteTableEntry) → equivalent route_less a b ≡ true → a.dest ≡ b.dest
unfolding route_less
equivalent-dest a b h = ground arith

reaches-erase :
    (d : ℕ) (e : RouteTableEntry) (t : List RouteTableEntry)
    → (reaches d (erase route_less e t) || e.dest == d) ≡ (reaches d t || e.dest == d)
unfolding erase
reaches-erase d e [] = refl
reaches-erase d e (x ∷ t) = ground (arith, reaches-erase d e t, equivalent-dest x e)

contains-append_one :
    (d : ℕ) (xs : List ℕ) (a : ℕ) → contains d (xs ++ a ∷ []) ≡ (contains d xs || a == d)
contains-append_one d [] a = ground arith
contains-append_one d (x ∷ xs) a = ground (arith, contains-append_one d xs a)

any-perm :
    (p : RouteTableEntry → Bool) {xs ys : List RouteTableEntry} → Permᴰ xs ys → any p xs ≡ any p ys
any-perm p Permᴰ.nil = refl
any-perm p (Permᴰ.cons {a = a} {b = b} {l₁ = xs} {l₂ = ys} e h) = rw (e, any-perm p h)
any-perm p (Permᴰ.swap {a = a} {b = b} {a' = a'} {b' = b'} {l = l} e h) = rw (e, h) (ground arith)
any-perm p (Permᴰ.trans h k) = any-perm p h ∙ any-perm p k

Bool-discrete : Discrete Bool
Bool-discrete = hlevel

any-group :
    (table_index : Index route_less) (p q : RouteTableEntry → Bool) (t : List RouteTableEntry)
    → any q (table_index.group p t) ≡ any q (keep p t)
any-group table_index p q t =
    ∥∥₁_elim (table_index.group_perm p t) (hedberg Bool-discrete _ _) (any-perm q)

contains-dests :
    (d : ℕ) (xs : List RouteTableEntry)
    → contains d (map (λ x. x.dest) xs) ≡ any (λ x. x.dest == d) xs
contains-dests d [] = refl
contains-dests d (x ∷ xs) = ground (arith, contains-dests d xs)

reaches-keep :
    (d : ℕ) (p : RouteTableEntry → Bool) (t : List RouteTableEntry)
    → reaches d t ≡ (reaches d (keep (λ x. not (p x)) t) || any (λ x. x.dest == d) (keep p t))
reaches-keep d p [] = refl
reaches-keep d p (x ∷ t) = ground (arith, reaches-keep d p t)

module _ (table_index : Index route_less) (d : ℕ) where
  -- The events of the loop so far bring a listener to the table so far.
  abbrev IsTold : Bool → Advertising → Type 0
  IsTold b s =
      IsValid s.router.route_table × (reaches d s.router.route_table ≡ hear_all d b s.events)

  integrate_one-IsTold :
      (b : Bool) (sender : ℕ) (source : Connection) (s : Advertising) (route : Route)
      → IsTold b s
      → IsTold b (integrate_one table_index sender source s route)
  unfolding integrate_one
  integrate_one-IsTold b sender source s route h =
      elim (Bool-cases (loops_back s.router.id route)) [
        | inl loops ↦ rw (loops, integrate_one) h
        | inr fine ↦
            rw (fine, integrate_one)
              (
                install_valid,
                integrate_signals table_index s.router (hop sender route) source d h.0
                    ∙ ap
                        (λ x.
                          hear_all d x (integrate table_index s.router (hop sender route) source).1)
                        h.1
                    ∙ sym (
                        hear_all-append d b s.events
                          (integrate table_index s.router (hop sender route) source).1),
              )
      ]
    where
      install_valid :
          IsValid (integrate table_index s.router (hop sender route) source).0.route_table
      install_valid =
          unfold integrate in
          install-IsValid table_index s.router.route_table
            (record { route = hop sender route; connection = source.id }) h.0

  integrate_all-IsTold :
      (b : Bool) (sender : ℕ) (source : Connection) (s : Advertising) (routes : List Route)
      → IsTold b s
      → IsTold b (integrate_all table_index sender source s routes)
  unfolding integrate_all
  integrate_all-IsTold b sender source s [] h = h
  integrate_all-IsTold b sender source s (route ∷ routes) h =
      integrate_all-IsTold b sender source (integrate_one table_index sender source s route) routes
        (integrate_one-IsTold b sender source s route h)

  -- The table after a step is what a listener believes who was right before it.
  abbrev pub Tracks : Router → Router × List Event → Type 0
  Tracks r out = reaches d out.0.route_table ≡ hear_all d (reaches d r.route_table) out.1

  hear_all-flood :
      (b : Bool) (r : Router) (m : Message) (source : ℕ) → hear_all d b (flood r m source) ≡ b
  unfolding flood
  hear_all-flood b r m source =
      hear_all-send_where d b (λ c. not (c.id == source)) r.running m r.connections

  hear_all-broadcast : (b : Bool) (r : Router) (m : Message) → hear_all d b (broadcast r m) ≡ b
  unfolding broadcast
  hear_all-broadcast b r m = hear_all-send_where d b (λ c. true) r.running m r.connections

  pub integrate_advertisement-Tracks :
      (r : Router) (ra : RouteAdvertisement) (source : Connection)
      → IsValid r.route_table
      → Tracks r (integrate_advertisement table_index r ra source)
  unfolding integrate_advertisement
  integrate_advertisement-Tracks r ra source v =
      let s : Advertising =
        integrate_all table_index ra.sender source
          (record { router = r; events = []; advert = []; routes_updated = false }) ra.routes in
      let advert = message (route_advertisement (record { sender = r.id; routes = s.advert })) in
      ground (
        arith,
        integrate_all-IsTold (reaches d r.route_table) ra.sender source
            (record { router = r; events = []; advert = []; routes_updated = false }) ra.routes
            (v, refl),
        hear_all-append d (reaches d r.route_table) s.events (flood s.router advert source.id),
        hear_all-flood (hear_all d (reaches d r.route_table) s.events) s.router advert source.id,
      )

  -- The rows that are gone are among the affected destinations.
  abbrev IsCounted : List RouteTableEntry → Withdrawing → Type 0
  IsCounted t s = reaches d t ≡ (reaches d s.table || contains d s.effected)

  withdraw_found-IsCounted :
      (t : List RouteTableEntry) (s : Withdrawing) (route : Route) (found : Option RouteTableEntry)
      → ((e : RouteTableEntry) → found ≡ some e → reaches e.dest s.table ≡ true)
      → IsCounted t s
      → IsCounted t (withdraw_found route found s)
  unfolding withdraw_found
  withdraw_found-IsCounted t s route none k h = h
  withdraw_found-IsCounted t s route (some e) k h = elim (ℕ_discrete e.dest d) [
    | yes same ↦ ground (
      arith,
      reaches-erase d e s.table,
      contains-append_one d s.effected e.dest,
      rw same at (k e refl),
    )
    | no other ↦ ground (arith, reaches-erase d e s.table, contains-append_one d s.effected e.dest)
  ]

  withdraw_all-IsCounted :
      (t : List RouteTableEntry) (id sender : ℕ) (s : Withdrawing) (routes : List Route)
      → IsCounted t s
      → IsCounted t (withdraw_all table_index id sender s routes)
  unfolding withdraw_all withdraw_one
  withdraw_all-IsCounted t id sender s [] h = h
  withdraw_all-IsCounted t id sender s (route ∷ routes) h =
      withdraw_all-IsCounted t id sender (withdraw_one table_index id sender s route) routes (
        ground (
          arith,
          withdraw_found-IsCounted t s (hop sender route)
              (table_index.find (equivalent route_less (as_key (hop sender route))) s.table)
              (λ e f.
                table_index.find_in _ s.table (λ x. reaches x.dest s.table ≡ true) f
                  (reaches_refl s.table))
              h,
        ))

  -- A listener that hears of the lost destinations is right about the table that is left.
  lost_told :
      (before : List RouteTableEntry) (effected : List ℕ) (table : List RouteTableEntry)
      → reaches d before ≡ (reaches d table || contains d effected)
      → reaches d table
        ≡ hear_all d (reaches d before) (map unreachable (lost_dests effected table))
  lost_told before effected table h = ground (
    arith,
    hear_all-unreachable d (reaches d before) (lost_dests effected table),
    contains-lost_dests d effected table,
  )

  pub integrate_revocation-Tracks :
      (r : Router) (rr : RouteAdvertisement) (source : Connection)
      → Tracks r (integrate_revocation table_index r rr source)
  unfolding integrate_revocation
  integrate_revocation-Tracks r rr source =
      let start : Withdrawing = record {
        table = r.route_table;
        effected = [];
        routes = [];
        routes_updated = false;
      } in
      let s : Withdrawing = withdraw_all table_index r.id rr.sender start rr.routes in
      let after = record r { route_table = s.table } in
      let revocation = message (route_revocation (record { sender = r.id; routes = s.routes })) in
      let lost = map unreachable (lost_dests s.effected s.table) in
      let counted =
        withdraw_all-IsCounted r.route_table r.id rr.sender start rr.routes (ground arith) in
      ground (
        arith,
        lost_told r.route_table s.effected s.table counted,
        hear_all-append d (reaches d r.route_table) (flood after revocation source.id) lost,
        hear_all-flood (reaches d r.route_table) after revocation source.id,
      )

  pub remove-Tracks : (r : Router) (c : Connection) → Tracks r (remove table_index r c)
  unfolding remove
  remove-Tracks r c =
      let dead = λ (x : RouteTableEntry). x.connection == c.id in
      let dead_routes = table_index.group dead r.route_table in
      let table = keep (λ x. not (dead x)) r.route_table in
      let after = record r { route_table = table; connections = forget c.id r.connections } in
      let revocation =
        message
          (route_revocation (record { sender = r.id; routes = map (λ x. x.route) dead_routes })) in
      let lost = map unreachable (lost_dests (map (λ x. x.dest) dead_routes) table) in
      let counted : reaches d r.route_table
          ≡ (reaches d table || contains d (map (λ x. x.dest) dead_routes)) =
        reaches-keep d dead r.route_table
        ∙ ap (◌||◌ (reaches d table)) (
            sym (
              contains-dests d dead_routes
              ∙ any-group table_index dead (λ x. x.dest == d) r.route_table)) in
      ground (
        arith,
        lost_told r.route_table (map (λ x. x.dest) dead_routes) table counted,
        hear_all-append d (reaches d r.route_table) (broadcast after revocation) lost,
        hear_all-broadcast (reaches d r.route_table) after revocation,
      )
