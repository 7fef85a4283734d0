-- ===== src/Arrangement/Neighbours.antt =====
-- ScreenBBArrangement.cpp: the lists of screens that getScreensNextTo and collideWithOthers answer.
use mathlib.Core.Path.{sym}
use synergy_hogsback.Prelude.{
  ℕ, suc, zero, ◌+◌, ◌<◌, Bool, false, not, ◌&&◌, ◌==◌, ◌≡◌, refl, ap, if◌then◌else◌, List, [], ◌∷◌,
  Option, none, some, arith, ◌∙◌, any, get_elem?,
}
use synergy_hogsback.Prelude.Int.{ℤ, pos, eqb_ℤ}
use synergy_hogsback.Arrangement.Screens.{UiScreen}
use synergy_hogsback.Arrangement.Box.{
  Rect, collide, icon, meeting, Direction, area_beside, get_screens_next_to,
}
use synergy_hogsback.Arrangement.Collisions.{InRange, opposite, next_to_sides}

-- Does the list hold the index?
abbrev pub holds_index : ℕ → List ℕ → Bool
holds_index j is = any (λ i. i == j) is

head_turn :
    (i j : ℕ) (b c : Bool) (rest : List ℕ)
    → i ≡ j
    → holds_index j rest ≡ false
    → holds_index j (if b then rest else (if c then i ∷ rest else rest)) ≡ (not b && c)
head_turn i j b c rest e h = ground (arith, e, h)

module _ (index : ℤ) (area : Rect) where
  meeting_later :
      (i j : ℕ) (ss : List UiScreen) → j < i → holds_index j (meeting index area i ss) ≡ false
  unfolding meeting
  meeting_later i j [] h = refl
  meeting_later i j (s ∷ ss) h = ground (arith, meeting_later (suc i) j ss)

  holds_index-meeting :
      (i j k : ℕ) (ss : List UiScreen) (t : UiScreen)
      → get_elem? ss k ≡ some t
      → i + k ≡ j
      → holds_index j (meeting index area i ss)
        ≡ (not (eqb_ℤ (pos j) index) && collide area (icon t))
  unfolding meeting
  holds_index-meeting i j k [] t h e = ground arith
  holds_index-meeting i j zero (s ∷ ss) t h e =
      let same : i ≡ j = omega arith in
      let later = meeting_later (suc i) j ss (omega arith) in
      let t_is_s : s ≡ t = ground arith in
      head_turn i j (eqb_ℤ (pos i) index) (collide area (icon s)) _ same later
      ∙ (λ n. not (eqb_ℤ (pos (same n)) index) && collide area (icon (t_is_s n)))
  holds_index-meeting i j (suc k) (s ∷ ss) t h e =
      ground (arith, holds_index-meeting (suc i) j k ss t h (omega arith))

abbrev pub answers : ℕ → Option (List ℕ) → Bool
answers j none = false
answers j (some is) = holds_index j is

-- Does the list of screens on that side of the first screen have the second one?
unfoldable pub is_next_to : ℤ → ℤ → List UiScreen → ℕ → Direction → ℕ → Bool
is_next_to w v ss i dir j = answers j (get_screens_next_to w v ss (pos i) dir)

get_screens_next_to_finds :
    (w v : ℤ) (ss : List UiScreen) (i : ℕ) (dir : Direction) (s : UiScreen)
    → get_elem? ss i ≡ some s
    → get_screens_next_to w v ss (pos i) dir ≡ some (meeting (pos i) (area_beside w v dir s) 0 ss)
unfolding get_screens_next_to
get_screens_next_to_finds w v ss i dir s h = rw (get_screens_next_to, h) refl

is_next_to_lem :
    (w v : ℤ) (ss : List UiScreen) (i j : ℕ) (dir : Direction) (s t : UiScreen)
    → get_elem? ss i ≡ some s
    → get_elem? ss j ≡ some t
    → is_next_to w v ss i dir j ≡ (not (j == i) && collide (area_beside w v dir s) (icon t))
unfolding is_next_to
is_next_to_lem w v ss i j dir s t h k =
    ap (answers j) (get_screens_next_to_finds w v ss i dir s h)
    ∙ holds_index-meeting (pos i) (area_beside w v dir s) 0 j j ss t k (omega arith)

-- For two screens that are visible in the view, the second is among the screens next to the first on a
-- side exactly if the first is among those next to the second on the opposite side.
pub is_next_to-opposite :
    (w v : ℤ) (ss : List UiScreen) (i j : ℕ) (dir : Direction) (s t : UiScreen)
    → get_elem? ss i ≡ some s
    → get_elem? ss j ≡ some t
    → InRange w v s
    → InRange w v t
    → is_next_to w v ss i dir j ≡ is_next_to w v ss j (opposite dir) i
is_next_to-opposite w v ss i j dir s t h k p q =
    is_next_to_lem w v ss i j dir s t h k
    ∙ ap (λ b. not (j == i) && b) (next_to_sides w v s t dir p q)
    ∙ ap (λ b. b && collide (area_beside w v (opposite dir) t) (icon s)) (swapped i j)
    ∙ sym (is_next_to_lem w v ss j i (opposite dir) t s k h)
  where
    swapped : (i j : ℕ) → not (j == i) ≡ not (i == j)
    swapped i j = ground arith
