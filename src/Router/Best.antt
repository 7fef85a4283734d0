-- ===== src/Router/Best.antt =====
-- Router.cpp, the end of `Router::integrate` for a route: the rows of one destination, between those
-- below and above it, when a row is added.
use synergy_hogsback.Prelude.{
  ℕ, zero, suc, ◌+◌, ◌-◌, ◌≤◌, ◌<◌, ◌≡◌, refl, ap, ◌∙◌, Bool, true, false, ltb, leb, List, [], ◌∷◌,
  ◌++◌, arith, All, All-map, length, get_elem?, take, some, Bool-cases, inl, inr,
}
use synergy_hogsback.Index.{equivalent, place, erase, rank}
use synergy_hogsback.Index.Laws.{place_after, place_before, erase_after, All-place, length-place}
use synergy_hogsback.Router.State.{RouteTableEntry, route_less}
use synergy_hogsback.Router.Order.{route_less-IsStrict}
use synergy_hogsback.Router.Rows.{AreParts, rank_higher_lem, rank-append, get_elem?-append}
use synergy_hogsback.Router.Install.{erase_found, make_way, dest_route_limit}

-- Is the new route among the best three?
abbrev pub is_best : RouteTableEntry → List RouteTableEntry → Bool
is_best e mid = ltb (rank (λ x. route_less x e) mid) dest_route_limit

-- The best three of the rows of a destination and a new one.
abbrev pub best : RouteTableEntry → List RouteTableEntry → List RouteTableEntry
best e mid = take dest_route_limit (place route_less e mid)

pub take_all {ℓ} : {A : Type ℓ} (n : ℕ) (xs : List A) → length xs ≤ n → take n xs ≡ xs
take_all zero [] h = refl
take_all zero (x ∷ xs) h = absurd (omega arith)
take_all (suc n) [] h = refl
take_all (suc n) (x ∷ xs) h = ap (◌∷◌ x) (take_all n xs (omega arith))

pub rank-le : (p : RouteTableEntry → Bool) (xs : List RouteTableEntry) → rank p xs ≤ length xs
unfolding rank
rank-le p [] = omega arith
rank-le p (x ∷ xs) = ground (arith, rank-le p xs)

lower-less : (a b : RouteTableEntry) → a.dest < b.dest → route_less a b ≡ true
unfolding route_less
lower-less a b h = ground arith

higher-less : (a b : RouteTableEntry) → b.dest < a.dest → route_less a b ≡ false
unfolding route_less
higher-less a b h = ground arith

lower-equivalent : (a b : RouteTableEntry) → a.dest < b.dest → equivalent route_less a b ≡ false
unfolding route_less
lower-equivalent a b h = ground arith

-- A new row stands behind all the rows that are less.
rank-place :
    (e : RouteTableEntry) (xs ys : List RouteTableEntry)
    → rank (λ x. route_less x e) (place route_less e xs ++ ys) ≡ rank (λ x. route_less x e) xs
unfolding rank place
rank-place e [] ys = ground (arith, route_less-IsStrict.irrefl e)
rank-place e (x ∷ xs) ys = ground (arith, route_less-IsStrict.irrefl e, rank-place e xs ys)

module _ (e : RouteTableEntry) (lo hi : List RouteTableEntry)
    (lo_lt : All (λ x. x.dest < e.dest) lo) (hi_lt : All (λ x. e.dest < x.dest) hi) where
  pub place_parts :
      (mid : List RouteTableEntry)
      → place route_less e (lo ++ (mid ++ hi)) ≡ lo ++ (place route_less e mid ++ hi)
  place_parts mid =
      place_after route_less e lo (mid ++ hi) (All-map (λ x h. lower-less x e h) lo lo_lt)
      ∙ ap (◌++◌ lo)
          (place_before route_less e mid hi (All-map (λ x h. higher-less x e h) hi hi_lt))

  pub rank_parts :
      (mid : List RouteTableEntry)
      → rank (λ x. route_less x e) (lo ++ (place route_less e mid ++ hi))
        ≡ length lo + rank (λ x. route_less x e) mid
  rank_parts mid =
      rank-append _ lo (place route_less e mid ++ hi) (All-map (λ x h. lower-less x e h) lo lo_lt)
      ∙ ap (◌+◌ (length lo)) (rank-place e mid hi)

-- The three rows of a destination with a new one that is equivalent to none of them.
pub record Full (e a b c : RouteTableEntry) : Type 0 where
  pub a_b : route_less a b ≡ true
  pub a_c : route_less a c ≡ true
  pub b_c : route_less b c ≡ true
  pub e_a : equivalent route_less e a ≡ false
  pub e_b : equivalent route_less e b ≡ false
  pub e_c : equivalent route_less e c ≡ false

module _ (e a b c : RouteTableEntry) (hi : List RouteTableEntry) (f : Full e a b c) where
  abbrev three : List RouteTableEntry
  three = a ∷ b ∷ c ∷ []

  last_of_four : is_best e three ≡ true → get_elem? (place route_less e three ++ hi) 3 ≡ some c
  unfolding rank place
  last_of_four h = ground (arith, f.a_b)

  erase_last :
      is_best e three ≡ true
      → erase route_less c (place route_less e three ++ hi) ≡ best e three ++ hi
  unfolding rank place erase
  erase_last h = ground (
    arith,
    f.a_b,
    route_less-IsStrict.irrefl c,
    route_less-IsStrict.trans e a b,
    route_less-IsStrict.trans e b c,
    route_less-IsStrict.trans e a c,
  )

  erase_new :
      is_best e three ≡ false
      → erase route_less e (place route_less e three ++ hi) ≡ best e three ++ hi
  unfolding rank place erase
  erase_new h = ground (arith, f.a_b, route_less-IsStrict.irrefl e)

module _ (e : RouteTableEntry) (lo hi : List RouteTableEntry) (a b c : RouteTableEntry)
    (ps : AreParts e.dest lo (a ∷ b ∷ c ∷ []) hi) (f : Full e a b c) where
  abbrev new_mid : List RouteTableEntry
  new_mid = place route_less e (a ∷ b ∷ c ∷ [])

  new_parts : AreParts e.dest lo new_mid hi
  new_parts = record {
    lo_lt = ps.lo_lt;
    mid_eq = All-place route_less (λ x. x.dest ≡ e.dest) e (a ∷ b ∷ c ∷ []) refl ps.mid_eq;
    hi_lt = ps.hi_lt;
  }

  abbrev new_rows : List RouteTableEntry
  new_rows = lo ++ (new_mid ++ hi)

  second_lem : rank (λ x. leb x.dest e.dest) new_rows - 1 ≡ length lo + 3
  second_lem = omega (
    arith,
    rank_higher_lem e.dest lo new_mid hi new_parts,
    length-place route_less e (a ∷ b ∷ c ∷ []),
  )

  c_equivalent : (x : RouteTableEntry) → x.dest < e.dest → equivalent route_less x c ≡ false
  c_equivalent x h = lower-equivalent x c (omega arith)

  bumped_lem :
      is_best e (a ∷ b ∷ c ∷ []) ≡ true
      → get_elem? new_rows (rank (λ x. leb x.dest e.dest) new_rows - 1) ≡ some c
  bumped_lem good =
      rw second_lem (get_elem?-append lo (new_mid ++ hi) 3 ∙ last_of_four e a b c hi f good)

  without_last_lem :
      is_best e (a ∷ b ∷ c ∷ []) ≡ true
      → erase_found (get_elem? new_rows (rank (λ x. leb x.dest e.dest) new_rows - 1)) new_rows
        ≡ lo ++ (best e (a ∷ b ∷ c ∷ []) ++ hi)
  unfolding erase_found
  without_last_lem good = rw (bumped_lem good) (
      erase_after route_less c lo (new_mid ++ hi) (All-map (λ x h. c_equivalent x h) lo ps.lo_lt)
      ∙ ap (◌++◌ lo) (erase_last e a b c hi f good))

  without_new_lem :
      is_best e (a ∷ b ∷ c ∷ []) ≡ false
      → erase route_less e new_rows ≡ lo ++ (best e (a ∷ b ∷ c ∷ []) ++ hi)
  without_new_lem bad =
      erase_after route_less e lo (new_mid ++ hi)
        (All-map (λ x h. lower-equivalent x e h) lo ps.lo_lt)
      ∙ ap (◌++◌ lo) (erase_new e a b c hi f bad)

  pub make_way_lem : make_way e (length lo + 3) new_rows ≡ record {
    table = lo ++ (best e (a ∷ b ∷ c ∷ []) ++ hi);
    installed = is_best e (a ∷ b ∷ c ∷ []);
  }
  unfolding make_way
  make_way_lem = elim (Bool-cases (is_best e (a ∷ b ∷ c ∷ []))) [
    | inl good ↦
        rw (good, without_last_lem good)
          (ground (arith, rank_parts e lo hi ps.lo_lt ps.hi_lt (a ∷ b ∷ c ∷ [])))
    | inr bad ↦
        rw (bad, without_new_lem bad)
          (ground (arith, rank_parts e lo hi ps.lo_lt ps.hi_lt (a ∷ b ∷ c ∷ [])))
  ]
