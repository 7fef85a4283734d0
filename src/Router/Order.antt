-- ===== src/Router/Order.antt =====
-- Router.hpp, the orders of the keys of the two tables.
use synergy_hogsback.Prelude.{ℕ, ◌≡◌, refl, true, false, List, [], ◌∷◌, arith}
use synergy_hogsback.Index.Laws.{IsStrict}
use synergy_hogsback.Router.State.{RouteTableEntry, path_less, route_less, connection_less}

path_less_irrefl : (a : List ℕ) → path_less a a ≡ false
unfolding path_less
path_less_irrefl [] = refl
path_less_irrefl (x ∷ xs) = ground (arith, path_less_irrefl xs)

path_less_trans :
    (a b c : List ℕ) → path_less a b ≡ true → path_less b c ≡ true → path_less a c ≡ true
unfolding path_less
path_less_trans [] [] c h k = ground arith
path_less_trans [] (y ∷ ys) [] h k = ground arith
path_less_trans [] (y ∷ ys) (z ∷ zs) h k = refl
path_less_trans (x ∷ xs) [] c h k = ground arith
path_less_trans (x ∷ xs) (y ∷ ys) [] h k = ground arith
path_less_trans (x ∷ xs) (y ∷ ys) (z ∷ zs) h k = ground (arith, path_less_trans xs ys zs)

pub route_less-IsStrict : IsStrict route_less
unfolding route_less
route_less-IsStrict = record { irrefl = irrefl'; trans = trans' }
  where
    irrefl' : (a : RouteTableEntry) → route_less a a ≡ false
    irrefl' a = ground (arith, path_less_irrefl a.path)

    trans' :
        (a b c : RouteTableEntry)
        → route_less a b ≡ true
        → route_less b c ≡ true
        → route_less a c ≡ true
    trans' a b c h k = ground (arith, path_less_trans a.path b.path c.path)

pub connection_less-IsStrict : IsStrict connection_less
unfolding connection_less
connection_less-IsStrict = record { irrefl = λ a. ground arith; trans = λ a b c h k. ground arith }
