-- ===== src/Router/Removal.antt =====
-- Router.cpp, the invariant of the router under `Router::remove` and under a revocation.
use synergy_hogsback.Prelude.{
  ℕ, ◌≡◌, ◌≢◌, Bool, true, false, not, ◌==◌, List, [], ◌∷◌, arith, All, keep, length, Bool-cases,
  inl, inr, Option, none, some, ◌≤◌,
}
use synergy_hogsback.Index.{Index, IsSorted, equivalent, erase}
use synergy_hogsback.Index.Laws.{erase-IsSorted, keep-IsSorted, All-erase}
use synergy_hogsback.Message.{Route, RouteAdvertisement}
use synergy_hogsback.Router.State.{RouteTableEntry, Connection, route_less, connection_less, Router}
use synergy_hogsback.Router.Rows.{rows_for}
use synergy_hogsback.Router.Install.{hop}
use synergy_hogsback.Router.Valid.{IsValid}
use synergy_hogsback.Router.Withdraw.{
  Withdrawing, as_key, withdraw_found, withdraw_one, withdraw_all, integrate_revocation, forget,
  remove,
}
use synergy_hogsback.Router.Invariant.{is_live, IsSound, RouterInv}

length-rows_for-erase :
    (d : ℕ) (e : RouteTableEntry) (t : List RouteTableEntry)
    → length (rows_for d (erase route_less e t)) ≤ length (rows_for d t)
unfolding erase
length-rows_for-erase d e [] = omega arith
length-rows_for-erase d e (x ∷ t) = ground (arith, length-rows_for-erase d e t)

length-rows_for-keep :
    (d : ℕ) (p : RouteTableEntry → Bool) (t : List RouteTableEntry)
    → length (rows_for d (keep p t)) ≤ length (rows_for d t)
length-rows_for-keep d p [] = omega arith
length-rows_for-keep d p (x ∷ t) = ground (arith, length-rows_for-keep d p t)

pub erase-IsValid :
    (e : RouteTableEntry) (t : List RouteTableEntry) → IsValid t → IsValid (erase route_less e t)
erase-IsValid e t v = record {
  sorted = erase-IsSorted route_less e t v.sorted;
  limited = λ d. omega (arith, length-rows_for-erase d e t, v.limited d);
}

pub keep-IsValid :
    (p : RouteTableEntry → Bool) (t : List RouteTableEntry) → IsValid t → IsValid (keep p t)
keep-IsValid p t v = record {
  sorted = keep-IsSorted route_less p t v.sorted;
  limited = λ d. omega (arith, length-rows_for-keep d p t, v.limited d);
}

is_live-forget :
    (c d : ℕ) (cs : List Connection) → d ≢ c → is_live d cs ≡ true → is_live d (forget c cs) ≡ true
unfolding forget
is_live-forget c d [] ne h = h
is_live-forget c d (x ∷ cs) ne h = ground (arith, is_live-forget c d cs ne)

forget-All :
    (P : Connection → Type 0) (c : ℕ) (cs : List Connection) → All P cs → All P (forget c cs)
unfolding forget
forget-All P c [] h = tt
forget-All P c (x ∷ cs) h = ground (arith, forget-All P c cs h.1)

forget-IsSorted :
    (c : ℕ) (cs : List Connection)
    → IsSorted connection_less cs
    → IsSorted connection_less (forget c cs)
unfolding forget
forget-IsSorted c [] s = tt
forget-IsSorted c (x ∷ cs) s =
    ground (arith, forget-IsSorted c cs s.1, forget-All (λ y. connection_less x y ≡ true) c cs s.0)

module _ (table_index : Index route_less) where
  module _ (P : RouteTableEntry → Type 0) where
    withdraw_found-keeps :
        (route : Route) (found : Option RouteTableEntry) (s : Withdrawing)
        → IsValid s.table × All P s.table
        → IsValid (withdraw_found route found s).table × All P (withdraw_found route found s).table
    unfolding withdraw_found
    withdraw_found-keeps route none s h = h
    withdraw_found-keeps route (some entry) s h =
        (erase-IsValid entry s.table h.0, All-erase route_less P entry s.table h.1)

    pub withdraw_all-keeps :
        (id sender : ℕ) (s : Withdrawing) (routes : List Route)
        → IsValid s.table × All P s.table
        → IsValid (withdraw_all table_index id sender s routes).table
          × All P (withdraw_all table_index id sender s routes).table
    unfolding withdraw_all withdraw_one
    withdraw_all-keeps id sender s [] h = h
    withdraw_all-keeps id sender s (route ∷ routes) h =
        withdraw_all-keeps id sender (withdraw_one table_index id sender s route) routes (
          ground (
            arith,
            withdraw_found-keeps (hop sender route)
                (table_index.find (equivalent route_less (as_key (hop sender route))) s.table) s h,
          ))

  pub integrate_revocation-RouterInv :
      (r : Router) (rr : RouteAdvertisement) (source : Connection)
      → RouterInv r
      → RouterInv (integrate_revocation table_index r rr source).0
  unfolding integrate_revocation
  integrate_revocation-RouterInv r rr source v =
      let s : Withdrawing = record {
        table = r.route_table;
        effected = [];
        routes = [];
        routes_updated = false;
      } in
      let kept =
        withdraw_all-keeps (IsSound r.id r.connections) r.id rr.sender s rr.routes
          (v.valid, v.rows_sound) in
      elim (Bool-cases (rr.sender == r.id)) [
        | inl own ↦ rw (own, integrate_revocation) v
        | inr other ↦
            rw (other, integrate_revocation)
              (record {
                valid = kept.0;
                rows_sound = kept.1;
                connections_sorted = v.connections_sorted;
              })
      ]

  kept_rows :
      (r : Router) (c : ℕ) (t : List RouteTableEntry)
      → All (IsSound r.id r.connections) t
      → All (IsSound r.id (forget c r.connections)) (keep (λ x. not (x.connection == c)) t)
  kept_rows r c [] h = tt
  kept_rows r c (x ∷ t) h = elim (Bool-cases (x.connection == c)) [
    | inl dead ↦ rw dead (kept_rows r c t h.1)
    | inr fine ↦ rw fine (
      record {
        dest_ne = h.0.dest_ne;
        path_free = h.0.path_free;
        connection_live =
            is_live-forget c x.connection r.connections (ground arith) h.0.connection_live;
        connection_ne = h.0.connection_ne;
      },
      kept_rows r c t h.1,
    )
  ]

  pub remove-RouterInv :
      (r : Router) (c : Connection) → RouterInv r → RouterInv (remove table_index r c).0
  unfolding remove
  remove-RouterInv r c v = record {
    valid = keep-IsValid (λ x. not (x.connection == c.id)) r.route_table v.valid;
    rows_sound = kept_rows r c.id r.route_table v.rows_sound;
    connections_sorted = forget-IsSorted c.id r.connections v.connections_sorted;
  }
