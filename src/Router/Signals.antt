-- ===== src/Router/Signals.antt =====
-- Router.cpp, the signals `on_node_reachable` and `on_node_unreachable` of each operation.
use native.Mathlib.Decide.{ℕ_discrete}
use synergy_hogsback.Prelude.{
  ℕ, ◌≡◌, refl, ap, ◌∙◌, Bool, true, false, not, ◌&&◌, ◌||◌, ◌==◌, if◌then◌else◌, List, [], ◌∷◌,
  ◌++◌, arith, keep, map, Bool-cases, inl, inr,
}
use synergy_hogsback.Index.{Index, place}
use synergy_hogsback.Message.{Route, Message}
use synergy_hogsback.Router.State.{
  RouteTableEntry, Connection, route_less, Router, Event, sent, forwarded, stopped, reachable,
  unreachable, received, connecting, reaches, contains,
}
use synergy_hogsback.Router.Rows.{rows_for}
use synergy_hogsback.Router.Best.{best}
use synergy_hogsback.Router.Valid.{IsValid, install_keeps_best, install_result}
use synergy_hogsback.Router.Install.{send_where, install, integrate}
use synergy_hogsback.Router.Withdraw.{sort_insert, sort, unique_after, unique, lost_dests}

-- What a listener that starts from `b` believes of node `d` after the signals.
abbrev pub hear : ℕ → Bool → Event → Bool
hear d b (reachable x) = if x == d then true else b
hear d b (unreachable x) = if x == d then false else b
hear d b (sent _ _) = b
hear d b (forwarded _ _ _) = b
hear d b (stopped _) = b
hear d b (received _ _) = b
hear d b (connecting _) = b

abbrev pub hear_all : ℕ → Bool → List Event → Bool
hear_all d b [] = b
hear_all d b (e ∷ es) = hear_all d (hear d b e) es

pub hear_all-append :
    (d : ℕ) (b : Bool) (xs ys : List Event)
    → hear_all d b (xs ++ ys) ≡ hear_all d (hear_all d b xs) ys
hear_all-append d b [] ys = refl
hear_all-append d b (x ∷ xs) ys = hear_all-append d (hear d b x) xs ys

pub hear_all-send_where :
    (d : ℕ) (b : Bool) (p : Connection → Bool) (running : Bool) (m : Message) (cs : List Connection)
    → hear_all d b (send_where p running m cs) ≡ b
unfolding send_where
hear_all-send_where d b p running m [] = refl
hear_all-send_where d b p running m (c ∷ cs) =
    ground (arith, hear_all-send_where d b p running m cs)

pub hear_all-unreachable :
    (d : ℕ) (b : Bool) (ds : List ℕ)
    → hear_all d b (map unreachable ds) ≡ (b && not (contains d ds))
hear_all-unreachable d true [] = refl
hear_all-unreachable d false [] = refl
hear_all-unreachable d b (x ∷ ds) =
    ground (arith, hear_all-unreachable d b ds, hear_all-unreachable d false ds)

-- `std::sort` and `std::unique` keep what is in the list.
contains-sort_insert :
    (d a : ℕ) (xs : List ℕ) → contains d (sort_insert a xs) ≡ (a == d || contains d xs)
unfolding sort_insert
contains-sort_insert d a [] = refl
contains-sort_insert d a (x ∷ xs) = ground (arith, contains-sort_insert d a xs)

contains-sort : (d : ℕ) (xs : List ℕ) → contains d (sort xs) ≡ contains d xs
unfolding sort
contains-sort d [] = refl
contains-sort d (x ∷ xs) = ground (arith, contains-sort_insert d x (sort xs), contains-sort d xs)

contains-unique_after :
    (d a : ℕ) (xs : List ℕ) → (a == d || contains d (unique_after a xs)) ≡ (a == d || contains d xs)
unfolding unique_after
contains-unique_after d a [] = refl
contains-unique_after d a (x ∷ xs) =
    ground (arith, contains-unique_after d a xs, contains-unique_after d x xs)

contains-unique : (d : ℕ) (xs : List ℕ) → contains d (unique xs) ≡ contains d xs
unfolding unique
contains-unique d [] = refl
contains-unique d (x ∷ xs) = contains-unique_after d x xs

contains-keep :
    (d : ℕ) (p : ℕ → Bool) (xs : List ℕ) → contains d (keep p xs) ≡ (contains d xs && p d)
contains-keep d p [] = refl
contains-keep d p (x ∷ xs) = elim (ℕ_discrete x d) [
  | yes same ↦ rw same (ground (arith, contains-keep d p xs))
  | no other ↦ ground (arith, contains-keep d p xs)
]

-- Exactly the affected destinations that no row leads to any more are lost.
pub contains-lost_dests :
    (d : ℕ) (effected : List ℕ) (table : List RouteTableEntry)
    → contains d (lost_dests effected table) ≡ (contains d effected && not (reaches d table))
unfolding lost_dests
contains-lost_dests d effected table =
    contains-keep d (λ x. not (reaches x table)) (unique (sort effected))
    ∙ ap (λ b. b && not (reaches d table))
        (contains-unique d (sort effected) ∙ contains-sort d effected)

abbrev is_cons : List RouteTableEntry → Bool
is_cons [] = false
is_cons (_ ∷ _) = true

reaches-rows_for : (d : ℕ) (t : List RouteTableEntry) → reaches d t ≡ is_cons (rows_for d t)
reaches-rows_for d [] = refl
reaches-rows_for d (x ∷ t) = ground (arith, reaches-rows_for d t)

best_nonempty : (e : RouteTableEntry) (mid : List RouteTableEntry) → is_cons (best e mid) ≡ true
unfolding place
best_nonempty e [] = refl
best_nonempty e (x ∷ mid) = ground arith

module _ (table_index : Index route_less) (t : List RouteTableEntry) (e : RouteTableEntry)
    (v : IsValid t) (d : ℕ) where
  reaches-installed :
      (install table_index t e).installed ≡ true
      → reaches d (install table_index t e).table ≡ (reaches d t || e.dest == d)
  reaches-installed done =
      let new = ((install_result table_index t e v).0 done).0 in
      let kept = install_keeps_best table_index t e v new in
      rw (reaches-rows_for d (install table_index t e).table) (elim (ℕ_discrete d e.dest) [
        | yes same ↦ rw (same, kept.0) (ground (arith, best_nonempty e (rows_for e.dest t)))
        | no other ↦ rw (kept.1 d other) (ground (arith, reaches-rows_for d t))
      ])

  -- Installing makes the new row's destination reachable, and nothing unreachable.
  pub reaches-install :
      reaches d (install table_index t e).table
      ≡ (reaches d t || (e.dest == d && (install table_index t e).installed))
  reaches-install = elim (Bool-cases (install table_index t e).installed) [
    | inl done ↦ rw (reaches-installed done, done) (ground arith)
    | inr kept ↦ rw (kept, (install_result table_index t e v).1 kept) (ground arith)
  ]

module _ (table_index : Index route_less) where
  -- A listener knows which nodes are reachable after one route was integrated.
  pub integrate_signals :
      (r : Router) (route : Route) (source : Connection) (d : ℕ)
      → IsValid r.route_table
      → reaches d (integrate table_index r route source).0.route_table
        ≡ hear_all d (reaches d r.route_table) (integrate table_index r route source).1
  unfolding integrate
  integrate_signals r route source d v =
      let entry : RouteTableEntry = record { route = route; connection = source.id } in
      rw (reaches-install table_index r.route_table entry v d) (elim (ℕ_discrete route.dest d) [
        | yes same ↦ rw same (ground arith)
        | no other ↦ ground arith
      ])
