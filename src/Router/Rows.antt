-- ===== src/Router/Rows.antt =====
-- Router.cpp, the rows below a destination, its own, and those above: the ranges that `equal_range`
-- and `rank` of the `by_destination` index speak of.
use synergy_hogsback.Prelude.{
  ℕ, suc, ◌+◌, ◌≤◌, ◌<◌, ◌≡◌, ◌≢◌, refl, ap, Bool, true, false, ltb, leb, ◌==◌, List, [], ◌∷◌, ◌++◌,
  arith, All, All-append, All-map, keep, keep_none, keep_passes, length, get_elem?, keep-append,
  keep_every, append-nil,
}
use synergy_hogsback.Index.{IsSorted, rank}
use synergy_hogsback.Router.State.{RouteTableEntry, route_less}

abbrev pub below : ℕ → List RouteTableEntry → List RouteTableEntry
below d = keep (λ x. ltb x.dest d)

-- The routes that the table holds for a destination, best first.
abbrev pub rows_for : ℕ → List RouteTableEntry → List RouteTableEntry
rows_for d = keep (λ x. x.dest == d)

abbrev pub above : ℕ → List RouteTableEntry → List RouteTableEntry
above d = keep (λ x. ltb d x.dest)

dest-le : (a b : RouteTableEntry) → route_less a b ≡ true → a.dest ≤ b.dest
unfolding route_less
dest-le a b h = ground arith

pub split_lem :
    (d : ℕ) (t : List RouteTableEntry)
    → IsSorted route_less t
    → t ≡ below d t ++ (rows_for d t ++ above d t)
split_lem d [] s = refl
split_lem d (x ∷ xs) s = ground (arith, split_lem d xs s.1, none_below, none_for)
  where
    none_below : d ≤ x.dest → below d xs ≡ []
    none_below h = keep_none _ xs (All-map (λ y k. ground (arith, dest-le x y k)) xs s.0)

    none_for : d < x.dest → rows_for d xs ≡ []
    none_for h = keep_none _ xs (All-map (λ y k. ground (arith, dest-le x y k)) xs s.0)

pub rank-append :
    (p : RouteTableEntry → Bool) (xs ys : List RouteTableEntry)
    → All (λ x. p x ≡ true) xs
    → rank p (xs ++ ys) ≡ length xs + rank p ys
unfolding rank
rank-append p [] ys h = omega arith
rank-append p (x ∷ xs) ys h = ground (arith, rank-append p xs ys h.1)

pub rank_none :
    (p : RouteTableEntry → Bool) (xs : List RouteTableEntry)
    → All (λ x. p x ≡ false) xs
    → rank p xs ≡ 0
unfolding rank
rank_none p [] h = refl
rank_none p (x ∷ xs) h = ground arith

pub get_elem?-append :
    (xs ys : List RouteTableEntry) (i : ℕ) → get_elem? (xs ++ ys) (length xs + i) ≡ get_elem? ys i
get_elem?-append [] ys i = ap (get_elem? ys) (omega arith)
get_elem?-append (x ∷ xs) ys i =
    let e : length (x ∷ xs) + i ≡ suc (length xs + i) = omega arith in
    rw e (get_elem?-append xs ys i)

-- Facts about the three parts that hold of any table.
module _ (d : ℕ) (t : List RouteTableEntry) where
  pub below_lt : All (λ x. x.dest < d) (below d t)
  below_lt = All-map (λ x h. ground arith) (below d t) (keep_passes (λ x. ltb x.dest d) t)

  pub rows_for_eq : All (λ x. x.dest ≡ d) (rows_for d t)
  rows_for_eq = All-map (λ x h. ground arith) (rows_for d t) (keep_passes (λ x. x.dest == d) t)

  pub above_lt : All (λ x. d < x.dest) (above d t)
  above_lt = All-map (λ x h. ground arith) (above d t) (keep_passes (λ x. ltb d x.dest) t)

-- Three lists that lie below, at and above a destination.
pub record AreParts (d : ℕ) (lo mid hi : List RouteTableEntry) : Type 0 where
  pub lo_lt : All (λ x. x.dest < d) lo
  pub mid_eq : All (λ x. x.dest ≡ d) mid
  pub hi_lt : All (λ x. d < x.dest) hi

pub parts : (d : ℕ) (t : List RouteTableEntry) → AreParts d (below d t) (rows_for d t) (above d t)
parts d t = record { lo_lt = below_lt d t; mid_eq = rows_for_eq d t; hi_lt = above_lt d t }

module _ (d : ℕ) (lo mid hi : List RouteTableEntry) (ps : AreParts d lo mid hi) where
  pub rank_lower_lem : rank (λ x. ltb x.dest d) (lo ++ (mid ++ hi)) ≡ length lo
  rank_lower_lem =
      rw
        (rank-append (λ x. ltb x.dest d) lo (mid ++ hi) (All-map (λ x h. ground arith) lo ps.lo_lt))
        (rw
          (rank_none (λ x. ltb x.dest d) (mid ++ hi)
            (All-append _ mid hi (All-map (λ x h. ground arith) mid ps.mid_eq)
              (All-map (λ x h. ground arith) hi ps.hi_lt)))
          (omega arith))

  pub rank_higher_lem : rank (λ x. leb x.dest d) (lo ++ (mid ++ hi)) ≡ length lo + length mid
  rank_higher_lem =
      rw
        (rank-append (λ x. leb x.dest d) lo (mid ++ hi) (All-map (λ x h. ground arith) lo ps.lo_lt))
        (rw (rank-append (λ x. leb x.dest d) mid hi (All-map (λ x h. ground arith) mid ps.mid_eq)) (
          rw (rank_none (λ x. leb x.dest d) hi (All-map (λ x h. ground arith) hi ps.hi_lt))
            (omega arith)))

  pub rows_for-parts : rows_for d (lo ++ (mid ++ hi)) ≡ mid
  rows_for-parts =
      rw (keep-append (λ x. x.dest == d) lo (mid ++ hi), keep-append (λ x. x.dest == d) mid hi)
        (rw
          (
            keep_none (λ x. x.dest == d) lo (All-map (λ x h. ground arith) lo ps.lo_lt),
            keep_every (λ x. x.dest == d) mid (All-map (λ x h. ground arith) mid ps.mid_eq),
            keep_none (λ x. x.dest == d) hi (All-map (λ x h. ground arith) hi ps.hi_lt),
          )
          (append-nil mid))

  pub rows_for-parts_ne :
      (c : ℕ) → c ≢ d → rows_for c (lo ++ (mid ++ hi)) ≡ rows_for c lo ++ rows_for c hi
  rows_for-parts_ne c ne =
      rw (keep-append (λ x. x.dest == c) lo (mid ++ hi), keep-append (λ x. x.dest == c) mid hi)
        (rw (keep_none (λ x. x.dest == c) mid (All-map (λ x h. ground arith) mid ps.mid_eq)))
