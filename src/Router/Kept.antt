-- ===== src/Router/Kept.antt =====
-- Router.cpp, `install` on a whole table: its rows after the call.
use synergy_hogsback.Prelude.{
  ℕ, ◌≤◌, ◌<◌, ◌≡◌, refl, true, false, ◌||◌, List, [], ◌∷◌, ◌++◌, arith, All, All-right, length,
  any, any-false,
}
use synergy_hogsback.Index.{Index, IsSorted, equivalent, place}
use synergy_hogsback.Index.Laws.{IsSorted-right, length-place}
use synergy_hogsback.Router.State.{RouteTableEntry, route_less, reaches}
use synergy_hogsback.Router.Rows.{AreParts, rank_lower_lem, rank_higher_lem}
use synergy_hogsback.Router.Best.{is_best, best, Full, make_way_lem, take_all, rank-le, place_parts}
use synergy_hogsback.Router.Install.{install, dest_route_limit}

pub reaches-append :
    (d : ℕ) (xs ys : List RouteTableEntry) → reaches d (xs ++ ys) ≡ (reaches d xs || reaches d ys)
reaches-append d [] ys = refl
reaches-append d (x ∷ xs) ys = ground (arith, reaches-append d xs ys)

module _ (table_index : Index route_less) where
  module _ (e : RouteTableEntry) (lo mid hi : List RouteTableEntry) (ps : AreParts e.dest lo mid hi)
      (s : IsSorted route_less (lo ++ (mid ++ hi)))
      (fresh : any (equivalent route_less e) (lo ++ (mid ++ hi)) ≡ false) where
    install_few :
        length mid < 3
        → install table_index (lo ++ (mid ++ hi)) e
          ≡ record { table = lo ++ (best e mid ++ hi); installed = is_best e mid }
    unfolding install
    install_few few =
        rw
          (
            table_index.insert_placed e (lo ++ (mid ++ hi)) s fresh,
            rank_lower_lem e.dest lo mid hi ps,
            rank_higher_lem e.dest lo mid hi ps,
            place_parts e lo hi ps.lo_lt ps.hi_lt mid,
          )
          (ground (
            arith,
            rank-le (λ x. route_less x e) mid,
            take_all 3 (place route_less e mid),
            length-place route_less e mid,
          ))

  install_full :
      (e a b c : RouteTableEntry) (lo hi : List RouteTableEntry)
      → AreParts e.dest lo (a ∷ b ∷ c ∷ []) hi
      → IsSorted route_less (lo ++ (a ∷ b ∷ c ∷ hi))
      → any (equivalent route_less e) (lo ++ (a ∷ b ∷ c ∷ hi)) ≡ false
      → install table_index (lo ++ (a ∷ b ∷ c ∷ hi)) e ≡ record {
        table = lo ++ (best e (a ∷ b ∷ c ∷ []) ++ hi);
        installed = is_best e (a ∷ b ∷ c ∷ []);
      }
  unfolding install
  install_full e a b c lo hi ps s fresh =
      rw
        (
          table_index.insert_placed e (lo ++ (a ∷ b ∷ c ∷ hi)) s fresh,
          rank_lower_lem e.dest lo (a ∷ b ∷ c ∷ []) hi ps,
          rank_higher_lem e.dest lo (a ∷ b ∷ c ∷ []) hi ps,
          place_parts e lo hi ps.lo_lt ps.hi_lt (a ∷ b ∷ c ∷ []),
        )
        (ground
          (arith, reaches-append e.dest lo (a ∷ b ∷ c ∷ hi), make_way_lem e lo hi a b c ps full))
    where
      tail : IsSorted route_less (a ∷ b ∷ c ∷ hi)
      tail = IsSorted-right route_less lo (a ∷ b ∷ c ∷ hi) s

      new : All (λ x. equivalent route_less e x ≡ false) (a ∷ b ∷ c ∷ hi)
      new = All-right _ lo (a ∷ b ∷ c ∷ hi) (any-false (equivalent route_less e) _ fresh)

      full : Full e a b c
      full = record {
        a_b = tail.0.0;
        a_c = tail.0.1.0;
        b_c = tail.1.0.0;
        e_a = new.0;
        e_b = new.1.0;
        e_c = new.1.1.0;
      }

  -- The rows of the new one's destination become the best three; all others stay.
  pub install_fresh :
      (e : RouteTableEntry) (lo mid hi : List RouteTableEntry)
      → AreParts e.dest lo mid hi
      → IsSorted route_less (lo ++ (mid ++ hi))
      → any (equivalent route_less e) (lo ++ (mid ++ hi)) ≡ false
      → length mid ≤ dest_route_limit
      → install table_index (lo ++ (mid ++ hi)) e
        ≡ record { table = lo ++ (best e mid ++ hi); installed = is_best e mid }
  install_fresh e lo [] hi ps s fresh n = install_few e lo [] hi ps s fresh (omega arith)
  install_fresh e lo (a ∷ []) hi ps s fresh n =
      install_few e lo (a ∷ []) hi ps s fresh (omega arith)
  install_fresh e lo (a ∷ b ∷ []) hi ps s fresh n =
      install_few e lo (a ∷ b ∷ []) hi ps s fresh (omega arith)
  install_fresh e lo (a ∷ b ∷ c ∷ []) hi ps s fresh n = install_full e a b c lo hi ps s fresh
  install_fresh e lo (a ∷ b ∷ c ∷ d ∷ mid) hi ps s fresh n = absurd (omega arith)

  -- A row that the table holds already changes nothing.
  pub install_known :
      (e : RouteTableEntry) (t : List RouteTableEntry)
      → IsSorted route_less t
      → any (equivalent route_less e) t ≡ true
      → install table_index t e ≡ record { table = t; installed = false }
  unfolding install
  install_known e t s known = rw (table_index.insert_refused e t s known) (ground arith)
