-- ===== src/Router/Valid.antt =====
-- Router.cpp, the invariant of the route table, and `install` on a table that satisfies it.
use native.Mathlib.Decide.{ℕ_discrete}
use synergy_hogsback.Prelude.{
  ℕ, zero, suc, ◌≤◌, ◌≡◌, ◌≢◌, refl, sym, ap, ◌∙◌, true, false, List, [], ◌∷◌, ◌++◌, arith, All,
  length, take, any, any-append, Bool-cases, inl, inr, append-nil, ◌<◌,
}
use synergy_hogsback.Index.{Index, IsSorted, equivalent, place, rank}
use synergy_hogsback.Index.Laws.{place-IsSorted, All-place}
use synergy_hogsback.Router.State.{RouteTableEntry, route_less}
use synergy_hogsback.Router.Order.{route_less-IsStrict}
use synergy_hogsback.Router.Rows.{
  AreParts, below, above, rows_for, parts, split_lem, rows_for-parts, rows_for-parts_ne,
}
use synergy_hogsback.Router.Best.{is_best, best, place_parts}
use synergy_hogsback.Router.Kept.{install_fresh, install_known}
use synergy_hogsback.Router.Install.{install, dest_route_limit}

-- The table is in index order, with no two equivalent rows and at most three for a destination.
pub record IsValid (t : List RouteTableEntry) : Type 0 where
  pub sorted : IsSorted route_less t
  pub limited : (d : ℕ) → length (rows_for d t) ≤ dest_route_limit

abbrev pub IsNew : RouteTableEntry → List RouteTableEntry → Type 0
IsNew e t = any (equivalent route_less e) t ≡ false

length-take-le {ℓ} : {A : Type ℓ} (n : ℕ) (xs : List A) → length (take n xs) ≤ n
length-take-le zero xs = omega arith
length-take-le (suc n) [] = omega arith
length-take-le (suc n) (x ∷ xs) = omega (arith, length-take-le n xs)

pub All-take_middle {ℓ κ} :
    {A : Type ℓ} (P : A → Type κ) (n : ℕ) (lo xs hi : List A)
    → All P (lo ++ (xs ++ hi))
    → All P (lo ++ (take n xs ++ hi))
All-take_middle P n (x ∷ lo) xs hi h = (h.0, All-take_middle P n lo xs hi h.1)
All-take_middle P zero [] [] hi h = h
All-take_middle P zero [] (x ∷ xs) hi h = All-take_middle P zero [] xs hi h.1
All-take_middle P (suc n) [] [] hi h = h
All-take_middle P (suc n) [] (x ∷ xs) hi h = (h.0, All-take_middle P n [] xs hi h.1)

IsSorted-take_middle :
    (n : ℕ) (lo xs hi : List RouteTableEntry)
    → IsSorted route_less (lo ++ (xs ++ hi))
    → IsSorted route_less (lo ++ (take n xs ++ hi))
IsSorted-take_middle n (x ∷ lo) xs hi s = (
  All-take_middle (λ y. route_less x y ≡ true) n lo xs hi s.0,
  IsSorted-take_middle n lo xs hi s.1,
)
IsSorted-take_middle zero [] [] hi s = s
IsSorted-take_middle zero [] (x ∷ xs) hi s = IsSorted-take_middle zero [] xs hi s.1
IsSorted-take_middle (suc n) [] [] hi s = s
IsSorted-take_middle (suc n) [] (x ∷ xs) hi s = (
  All-take_middle (λ y. route_less x y ≡ true) n [] xs hi s.0,
  IsSorted-take_middle n [] xs hi s.1,
)

-- A row with fewer than `n` rows in front of it is among the first `n`, and only then.
any-take-place :
    (e : RouteTableEntry) (n : ℕ) (mid : List RouteTableEntry)
    → rank (λ x. route_less x e) mid < n
    → any (equivalent route_less e) (take n (place route_less e mid)) ≡ true
unfolding rank place
any-take-place e zero mid h = absurd (omega arith)
any-take-place e (suc n) [] h = ground (arith, route_less-IsStrict.irrefl e)
any-take-place e (suc n) (x ∷ mid) h =
    ground (arith, route_less-IsStrict.irrefl e, any-take-place e n mid)

take-place_last :
    (e : RouteTableEntry) (n : ℕ) (mid : List RouteTableEntry)
    → n ≤ rank (λ x. route_less x e) mid
    → length mid ≤ n
    → take n (place route_less e mid) ≡ mid
unfolding rank place
take-place_last e zero [] h k = refl
take-place_last e (suc n) [] h k = absurd (omega arith)
take-place_last e zero (x ∷ mid) h k = absurd (omega arith)
take-place_last e (suc n) (x ∷ mid) h k = ground (arith, take-place_last e n mid)

module _ (table_index : Index route_less) (t : List RouteTableEntry) (e : RouteTableEntry)
    (v : IsValid t) where
  abbrev old : List RouteTableEntry
  old = rows_for e.dest t

  pub install_lem :
      IsNew e t
      → install table_index t e ≡ record {
        table = below e.dest t ++ (best e old ++ above e.dest t);
        installed = is_best e old;
      }
  install_lem new =
      let split = split_lem e.dest t v.sorted in
      ap (λ x. install table_index x e) split
      ∙ install_fresh table_index e (below e.dest t) old (above e.dest t) (parts e.dest t)
          (rw split at v.sorted) (rw split at new) (v.limited e.dest)

  best_parts : AreParts e.dest (below e.dest t) (best e old) (above e.dest t)
  best_parts = record {
    lo_lt = (parts e.dest t).lo_lt;
    mid_eq = rw (append-nil (best e old)) at (
        All-take_middle (λ x. x.dest ≡ e.dest) 3 [] (place route_less e old) []
          (rw (append-nil (place route_less e old))
            (All-place route_less (λ x. x.dest ≡ e.dest) e old refl (parts e.dest t).mid_eq)));
    hi_lt = (parts e.dest t).hi_lt;
  }

  -- Installing a route that a valid table does not have leaves its destination with the best three
  -- of the old routes and it, and every other destination as it was.
  pub install_keeps_best :
      IsNew e t
      → (rows_for e.dest (install table_index t e).table ≡ best e (rows_for e.dest t))
        × ((d : ℕ) → d ≢ e.dest → rows_for d (install table_index t e).table ≡ rows_for d t)
  install_keeps_best new = rw (install_lem new) (
    rows_for-parts e.dest (below e.dest t) (best e old) (above e.dest t) best_parts,
    λ d ne.
        rows_for-parts_ne e.dest (below e.dest t) (best e old) (above e.dest t) best_parts d ne
        ∙ sym (rows_for-parts_ne e.dest (below e.dest t) old (above e.dest t) (parts e.dest t) d ne)
        ∙ ap (rows_for d) (sym (split_lem e.dest t v.sorted)),
  )

  best-length : length (best e old) ≤ dest_route_limit
  best-length = length-take-le dest_route_limit (place route_less e old)

  new-IsSorted : IsNew e t → IsSorted route_less (below e.dest t ++ (best e old ++ above e.dest t))
  new-IsSorted new =
      let split = split_lem e.dest t v.sorted in
      let placed = place-IsSorted route_less-IsStrict e t v.sorted new in
      IsSorted-take_middle dest_route_limit (below e.dest t) (place route_less e old)
        (above e.dest t)
        (rw
          (ap (place route_less e) split
            ∙ place_parts e (below e.dest t) (above e.dest t) (parts e.dest t).lo_lt
                (parts e.dest t).hi_lt old)
          at placed)

  install_new-IsValid : IsNew e t → IsValid (install table_index t e).table
  install_new-IsValid new = record {
    sorted = rw (install_lem new) (new-IsSorted new);
    limited = λ d. elim (ℕ_discrete d e.dest) [
      | yes same ↦ rw (same, (install_keeps_best new).0) best-length
      | no ne ↦ rw ((install_keeps_best new).1 d ne) (v.limited d)
    ];
  }

  -- `install` keeps a valid table sorted, free of duplicates and within three routes a destination.
  pub install-IsValid : IsValid (install table_index t e).table
  install-IsValid = elim (Bool-cases (any (equivalent route_less e) t)) [
    | inl known ↦ rw (install_known table_index e t v.sorted known) v
    | inr new ↦ install_new-IsValid new
  ]

  any-best :
      is_best e old ≡ true
      → any (equivalent route_less e) (below e.dest t ++ (best e old ++ above e.dest t)) ≡ true
  any-best h = ground (
    arith,
    any-append (equivalent route_less e) (below e.dest t) (best e old ++ above e.dest t),
    any-append (equivalent route_less e) (best e old) (above e.dest t),
    any-take-place e dest_route_limit old,
  )

  -- On a valid table, when `install` answers `true` the route was new and is now in the table, and
  -- when it answers `false` the table is untouched.
  pub install_result :
      ((install table_index t e).installed ≡ true
        → IsNew e t × (any (equivalent route_less e) (install table_index t e).table ≡ true))
      × ((install table_index t e).installed ≡ false → (install table_index t e).table ≡ t)
  install_result = elim (Bool-cases (any (equivalent route_less e) t)) [
    | inl known ↦ rw (install_known table_index e t v.sorted known) (λ h. cc, λ h. refl)
    | inr new ↦ rw (install_lem new) (
      λ h. (new, any-best h),
      λ h.
          ap (λ m. below e.dest t ++ (m ++ above e.dest t))
            (take-place_last e dest_route_limit old (ground arith) (v.limited e.dest))
          ∙ sym (split_lem e.dest t v.sorted),
    )
  ]

  -- What holds of every row and of the new one holds of every row afterwards.
  pub install-All :
      (P : RouteTableEntry → Type 0) → P e → All P t → All P (install table_index t e).table
  install-All P h k = elim (Bool-cases (any (equivalent route_less e) t)) [
    | inl known ↦ rw (install_known table_index e t v.sorted known) k
    | inr new ↦ rw (install_lem new) (
        All-take_middle P dest_route_limit (below e.dest t) (place route_less e old)
          (above e.dest t)
          (rw
            (place_parts e (below e.dest t) (above e.dest t) (parts e.dest t).lo_lt
              (parts e.dest t).hi_lt old)
            at
            (All-place route_less P e (below e.dest t ++ (old ++ above e.dest t)) h
              (rw (split_lem e.dest t v.sorted) at k))))
  ]
