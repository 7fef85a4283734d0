-- ===== src/Arrangement/Placing.antt =====
-- ScreenBBArrangement.cpp: calculateNewPos, which puts a screen beside the bounding box.
use Prim.Native.String.{String}
use synergy_hogsback.Prelude.{
  ◌∙◌, ℕ, Bool, true, false, ◌≡◌, refl, if◌then◌else◌, List, arith, Bool-cases, inl, inr, ◌||◌,
  ◌&&◌, ltb, leb, ◌==◌, if-cases,
}
use synergy_hogsback.Prelude.Int.{ℤ, pos, negsuc, ◌<ℤ◌, ◌≤ℤ◌, leb_ℤ, ◌-ℤ◌, +ℤ_parts, -ℤ_parts}
use synergy_hogsback.Arrangement.Screens.{UiScreen, set_pos_x, set_pos_y}
use synergy_hogsback.Arrangement.Box.{
  Box, collide, icon, nearest_edge, place_beside, calculate_new_pos, is_flat, min, max,
}
use synergy_hogsback.Arrangement.Bounding.{Holds}
use synergy_hogsback.Arrangement.Collisions.{sideways_clear, upright_clear}

set_pos_y-pos_x : (y : ℤ) (s : UiScreen) → (set_pos_y y s).pos_x ≡ s.pos_x
unfolding set_pos_y
set_pos_y-pos_x y s =
    if-cases (λ (t : UiScreen). t.pos_x ≡ s.pos_x) (leb_ℤ y (negsuc 57) || leb_ℤ (pos 380) y)
      (λ e. refl) (λ e. refl)

set_pos_x_sets : (x : ℤ) (s : UiScreen) → negsuc 85 <ℤ x → x <ℤ pos 600 → (set_pos_x x s).pos_x ≡ x
unfolding set_pos_x
set_pos_x_sets x s h k =
    let low : leb_ℤ x (negsuc 85) ≡ false = ground arith in
    let high : leb_ℤ (pos 600) x ≡ false = ground arith in rw (low, high) refl

set_pos_y_sets : (y : ℤ) (s : UiScreen) → negsuc 57 <ℤ y → y <ℤ pos 380 → (set_pos_y y s).pos_y ≡ y
unfolding set_pos_y
set_pos_y_sets y s h k =
    let low : leb_ℤ y (negsuc 57) ≡ false = ground arith in
    let high : leb_ℤ (pos 380) y ≡ false = ground arith in rw (low, high) refl

-- The box lies inside the default view with some room on each side.
pub record IsInner (b : Box) : Type 0 where
  pub left_room : pos 0 <ℤ b.top_left_x
  pub right_room : b.bottom_right_x <ℤ pos 600
  pub top_room : pos 0 <ℤ b.top_left_y
  pub bottom_room : b.bottom_right_y <ℤ pos 380
  pub x_order : b.top_left_x ≤ℤ b.bottom_right_x
  pub y_order : b.top_left_y ≤ℤ b.bottom_right_y

-- A place where a screen collides with none that the box holds.
Clears : Box → UiScreen → Type 0
Clears b s = (t : UiScreen) → Holds b t → collide (icon s) (icon t) ≡ false

module _ (b : Box) (x y : ℤ) (s : UiScreen) (h : IsInner b) where
  left_side : Clears b (set_pos_y y (set_pos_x (b.top_left_x -ℤ pos 86) s))
  unfolding Clears
  left_side t k =
      let edge = b.top_left_x -ℤ pos 86 in
      let e = -ℤ_parts b.top_left_x (pos 86) in
      let at =
        set_pos_y-pos_x y (set_pos_x edge s)
        ∙ set_pos_x_sets edge s (ground (arith, e, h.left_room))
            (ground (arith, e, h.right_room, h.x_order)) in
      sideways_clear (set_pos_y y (set_pos_x edge s)) t
        (rw at (inl (ground (arith, e, +ℤ_parts edge (pos 86), k.0))))

  right_side : Clears b (set_pos_y y (set_pos_x b.bottom_right_x s))
  unfolding Clears
  right_side t k =
      let edge = b.bottom_right_x in
      let at =
        set_pos_y-pos_x y (set_pos_x edge s)
        ∙ set_pos_x_sets edge s (ground (arith, h.left_room, h.x_order)) h.right_room in
      sideways_clear (set_pos_y y (set_pos_x edge s)) t (rw at (inr k.2))

  above : Clears b (set_pos_y (b.top_left_y -ℤ pos 58) (set_pos_x x s))
  unfolding Clears
  above t k =
      let edge = b.top_left_y -ℤ pos 58 in
      let e = -ℤ_parts b.top_left_y (pos 58) in
      let at =
        set_pos_y_sets edge (set_pos_x x s) (ground (arith, e, h.top_room))
          (ground (arith, e, h.bottom_room, h.y_order)) in
      upright_clear (set_pos_y edge (set_pos_x x s)) t
        (rw at (inl (ground (arith, e, +ℤ_parts edge (pos 58), k.1))))

  below : Clears b (set_pos_y b.bottom_right_y (set_pos_x x s))
  unfolding Clears
  below t k =
      let at =
        set_pos_y_sets b.bottom_right_y (set_pos_x x s) (ground (arith, h.top_room, h.y_order))
          h.bottom_room in
      upright_clear (set_pos_y b.bottom_right_y (set_pos_x x s)) t (rw at (inr k.3))

if-Clears :
    (b : Box) (c : Bool) (s t : UiScreen) → Clears b s → Clears b t → Clears b (if c then s else t)
if-Clears b true s t h k = h
if-Clears b false s t h k = k

-- One of the two tests on the distances holds.
either_axis :
    (b : Box) (a c d e : ℕ) (s t u : UiScreen)
    → Clears b s
    → Clears b t
    → Clears b (
        if ltb a c || a == c && leb e d then s else (if ltb c a || a == c && ltb d e then t else u))
either_axis b a c d e s t u h k = elim (Bool-cases (ltb a c || a == c && leb e d)) [
  | inl first ↦ rw first h
  | inr second ↦
      let covered : (ltb c a || a == c && ltb d e) ≡ true = ground (arith, second) in
      rw (second, covered) k
]

nearest_edge-Clears :
    (b : Box) (l r t m : ℕ) (at_left at_right above below s : UiScreen)
    → Clears b at_left
    → Clears b at_right
    → Clears b above
    → Clears b below
    → Clears b (nearest_edge l r t m at_left at_right above below s)
unfolding nearest_edge
nearest_edge-Clears b l r t m at_left at_right above below s h1 h2 h3 h4 =
    either_axis b (min l r) (min t m) (max l r) (max t m) _ _ s
      (if-Clears b (ltb l r) at_left at_right h1 h2) (if-Clears b (ltb t m) above below h3 h4)

place_beside-Clears :
    (b : Box) (x y : ℤ) (s : UiScreen) → IsInner b → Clears b (place_beside b x y s)
unfolding place_beside
place_beside-Clears b x y s h =
    nearest_edge-Clears b _ _ _ _ _ _ _ _ s (left_side b x y s h) (right_side b x y s h)
      (above b x y s h) (below b x y s h)

if-Clears_second :
    (b : Box) (c : Bool) (s t : UiScreen) → c ≡ false → Clears b t → Clears b (if c then s else t)
unfolding Clears
if-Clears_second b c s t e h u k = rw e (h u k)

-- If the bounding box has an area and lies inside the default view with room on each side, the place
-- that calculateNewPos gives a screen is clear of every screen in the box.
pub calculate_new_pos_clear :
    (w v : ℤ) (b : Box) (local : String) (ss : List UiScreen) (s t : UiScreen)
    → IsInner b
    → is_flat b ≡ false
    → Holds b t
    → collide (icon (calculate_new_pos w v b local ss s)) (icon t) ≡ false
unfolding calculate_new_pos Clears
calculate_new_pos_clear w v b local ss s t h area k =
    if-Clears_second b (is_flat b) _ _ area (place_beside-Clears b _ _ s h) t k
