-- ===== src/Links/Edges.antt =====
-- ConfigGen.cpp: each screen is linked on its four sides to the screens that lie there. The edges
-- are maps of Boost and `std::sort` is the standard library's, so both are an interface.
use synergy_hogsback.Prelude.{
  ℕ, suc, Bool, true, false, not, ◌&&◌, ◌||◌, ◌==◌, ◌≡◌, if◌then◌else◌, List, [], ◌∷◌, Option, none,
  some, All, any, keep,
}
use synergy_hogsback.Prelude.Int.{ℤ, pos, ◌+ℤ◌, ltb_ℤ, leb_ℤ, eqb_ℤ}
use synergy_hogsback.Profile.Config.{Screen}

-- A screen with its index, which stands for its address.
abbrev pub Target : Type 0
Target = ℕ × Screen

-- No element comes before an earlier one.
unfoldable pub IsSorted : (Target → Target → Bool) → List Target → Type 0
IsSorted less [] = Unit
IsSorted less (t ∷ ts) = All (λ u. less u t ≡ false) ts × IsSorted less ts

-- The order that `std::sort` asks for.
pub record IsOrder (less : Target → Target → Bool) : Type 0 where
  pub irreflexive : (a : Target) → less a a ≡ false
  pub transitive : (a b c : Target) → less a b ≡ true → less b c ≡ true → less a c ≡ true
  pub separates : (a b c : Target) → less a c ≡ true → (less a b || less b c) ≡ true

-- A map from intervals to the ids of screens, and sorting.
pub record EdgeMaps (E : Type 0) : Type 0 where
  pub empty : E
  -- `set` with a closed interval
  pub put : ℤ → ℤ → ℤ → E → E
  -- the value that the map has at a position
  pub value : E → ℤ → Option ℤ
  pub sort : (Target → Target → Bool) → List Target → List Target

pub record EdgeLaws {E : Type 0} (maps : EdgeMaps E) : Type 0 where
  pub value-empty : (p : ℤ) → maps.value maps.empty p ≡ none
  -- An id of 0 is absorbed by the map.
  pub value-put :
      (low high d : ℤ) (e : E) (p : ℤ)
      → eqb_ℤ d (pos 0) ≡ false
      → maps.value (maps.put low high d e) p
        ≡ (if leb_ℤ low p && leb_ℤ p high then some d else maps.value e p)
  pub any-sort :
      (less : Target → Target → Bool) (test : Target → Bool) (ts : List Target)
      → any test (maps.sort less ts) ≡ any test ts
  pub sort-IsSorted :
      (less : Target → Target → Bool) (ts : List Target)
      → IsOrder less
      → IsSorted less (maps.sort less ts)

abbrev pub right_of : Screen → ℤ
right_of s = s.x +ℤ s.width

abbrev pub bottom_of : Screen → ℤ
bottom_of s = s.y +ℤ s.height

abbrev pub remove_source : Target → List Target → List Target
remove_source source ts = keep (λ t. not (t.0 == source.0)) ts

abbrev pub remove_left : Target → List Target → List Target
remove_left source ts = keep (λ t. not (leb_ℤ (right_of t.1) source.1.x)) ts

abbrev pub remove_right : Target → List Target → List Target
remove_right source ts = keep (λ t. not (leb_ℤ (right_of source.1) t.1.x)) ts

abbrev pub remove_above : Target → List Target → List Target
remove_above source ts = keep (λ t. not (leb_ℤ (bottom_of t.1) source.1.y)) ts

abbrev pub remove_below : Target → List Target → List Target
remove_below source ts = keep (λ t. not (leb_ℤ (bottom_of source.1) t.1.y)) ts

abbrev pub max_of : ℤ → ℤ → ℤ
max_of a b = if ltb_ℤ a b then b else a

abbrev pub min_of : ℤ → ℤ → ℤ
min_of a b = if ltb_ℤ b a then b else a

-- The interval where the target lies beside the source.
abbrev pub rows : Target → Target → ℤ × ℤ
rows source t = (max_of source.1.y t.1.y, min_of (bottom_of source.1) (bottom_of t.1))

abbrev pub columns : Target → Target → ℤ × ℤ
columns source t = (max_of source.1.x t.1.x, min_of (right_of source.1) (right_of t.1))

abbrev pub x_less : Target → Target → Bool
x_less a b = ltb_ℤ a.1.x b.1.x

abbrev pub x_greater : Target → Target → Bool
x_greater a b = ltb_ℤ b.1.x a.1.x

abbrev pub y_less : Target → Target → Bool
y_less a b = ltb_ℤ a.1.y b.1.y

abbrev pub y_greater : Target → Target → Bool
y_greater a b = ltb_ℤ b.1.y a.1.y

pub data Direction : Type 0 where
  up : Direction
  right : Direction
  down : Direction
  left : Direction

pub record ScreenLinks (E : Type 0) : Type 0 where
  pub top_edge : E
  pub right_edge : E
  pub bottom_edge : E
  pub left_edge : E

abbrev pub edge : {E : Type 0} → Direction → ScreenLinks E → E
edge up links = links.top_edge
edge right links = links.right_edge
edge down links = links.bottom_edge
edge left links = links.left_edge

-- The place of each screen in the vector.
abbrev pub number : ℕ → List Screen → List Target
number i [] = []
number i (s ∷ ss) = (i, s) ∷ number (suc i) ss

module _ {E : Type 0} (maps : EdgeMaps E) where
  -- The loop that enters the targets in their order.
  abbrev pub enter : (Target → ℤ × ℤ) → List Target → E → E
  enter interval [] e = e
  enter interval (t ∷ ts) e = enter interval ts (maps.put (interval t).0 (interval t).1 t.1.id e)

  unfoldable pub link_left : Target → List Target → E → E
  link_left source ts =
      let near =
        remove_below source (remove_above source (remove_right source (remove_source source ts))) in
      enter (rows source) (maps.sort x_less near)

  unfoldable pub link_right : Target → List Target → E → E
  link_right source ts =
      let near =
        remove_below source (remove_above source (remove_left source (remove_source source ts))) in
      enter (rows source) (maps.sort x_greater near)

  unfoldable pub link_up : Target → List Target → E → E
  link_up source ts =
      let near =
        remove_below source (remove_right source (remove_left source (remove_source source ts))) in
      enter (columns source) (maps.sort y_less near)

  unfoldable pub link_down : Target → List Target → E → E
  link_down source ts =
      let near =
        remove_above source (remove_right source (remove_left source (remove_source source ts))) in
      enter (columns source) (maps.sort y_greater near)

  unfoldable pub links_of : List Target → Target → ScreenLinks E
  links_of ts t = record {
    top_edge = link_up t ts maps.empty;
    right_edge = link_right t ts maps.empty;
    bottom_edge = link_down t ts maps.empty;
    left_edge = link_left t ts maps.empty;
  }

  abbrev pub link_all : List Target → List Target → List (ScreenLinks E)
  link_all ts [] = []
  link_all ts (t ∷ more) = links_of ts t ∷ link_all ts more

  unfoldable pub link_screens : List Screen → List (ScreenLinks E)
  link_screens ss = link_all (number 0 ss) (number 0 ss)
