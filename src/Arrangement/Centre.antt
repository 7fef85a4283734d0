-- ===== src/Arrangement/Centre.antt =====
-- ScreenBBArrangement.cpp: adjustToCenter, which moves all screens to the centre of the view.
use synergy_hogsback.Prelude.{
  false, ◌≡◌, refl, List, [], ◌∷◌, All, arith, Bool-cases, inl, inr, All-map, map,
}
use synergy_hogsback.Prelude.Int.{
  ℤ, pos, negsuc, ◌≤ℤ◌, ltb_ℤ, leb_ℤ, ◌+ℤ◌, ◌-ℤ◌, half, +ℤ_parts, -ℤ_parts, half_parts, parts_or,
}
use synergy_hogsback.Arrangement.Screens.{UiScreen, set_pos_x, set_pos_y, move_screen, adjust_all}
use synergy_hogsback.Arrangement.Box.{Box, centre_shift, adjust_to_center}
use synergy_hogsback.Arrangement.Bounding.{Holds}

-- How far the box is moved before it is clamped to the view.
abbrev first_shift : ℤ → ℤ → ℤ → ℤ
first_shift view low high = half view -ℤ half (high +ℤ low)

halves :
    (view low high : ℤ)
    → low ≤ℤ high
    → high -ℤ low ≤ℤ view
    → (negsuc 0 ≤ℤ low +ℤ first_shift view low high) × (high +ℤ first_shift view low high ≤ℤ view)
halves view low high h k =
    let shift = half view -ℤ half (high +ℤ low) in
    let sum = high +ℤ low in
    let a = half_parts view in
    let b = half_parts sum in
    let c = +ℤ_parts high low in
    let d = -ℤ_parts (half view) (half sum) in
    let e = -ℤ_parts high low in
    (
      ground (arith, a, b, c, d, e, parts_or sum, +ℤ_parts low shift),
      ground (arith, a, b, c, d, e, parts_or sum, +ℤ_parts high shift),
    )

-- A box that is no larger than the view is inside it after the shift along an axis.
centre_shift_inside :
    (view low high : ℤ)
    → low ≤ℤ high
    → high -ℤ low ≤ℤ view
    → (pos 0 ≤ℤ low +ℤ (centre_shift view low high).0)
      × (high +ℤ (centre_shift view low high).0 ≤ℤ view)
unfolding centre_shift
centre_shift_inside view low high h k =
    let shift = first_shift view low high in
    let low1 = low +ℤ shift in
    let high1 = high +ℤ shift in
    let near = halves view low high h k in
    let fits : ltb_ℤ view high1 ≡ false = ground (arith, near.1) in
    let a = +ℤ_parts low shift in
    let b = +ℤ_parts high shift in
    elim (Bool-cases (ltb_ℤ low1 (pos 0))) [
      | inl clamped ↦
          let c = -ℤ_parts shift low1 in
          let d = +ℤ_parts low (shift -ℤ low1) in
          let e = +ℤ_parts high (shift -ℤ low1) in
          rw (fits, clamped)
            (
              ground (arith, a, c, d),
              ground (arith, a, b, c, e, near.0, near.1, k, h, -ℤ_parts high low),
            )
      | inr inside ↦ rw (fits, inside) (ground (arith, inside), near.1)
    ]

-- The edges that are kept move with the screens, if the centre of the box is not negative.
centre_shift_follows :
    (view low high : ℤ)
    → low ≤ℤ high
    → high -ℤ low ≤ℤ view
    → pos 0 ≤ℤ high +ℤ low
    → ((centre_shift view low high).1 ≡ low +ℤ (centre_shift view low high).0)
      × ((centre_shift view low high).2 ≡ high +ℤ (centre_shift view low high).0)
unfolding centre_shift
centre_shift_follows view low high h k s =
    let shift = first_shift view low high in
    let sum = high +ℤ low in
    let near = halves view low high h k in
    let fits : ltb_ℤ view (high +ℤ shift) ≡ false = ground (arith, near.1) in
    let inside : ltb_ℤ (low +ℤ shift) (pos 0) ≡ false = ground (
      arith,
      half_parts view,
      half_parts sum,
      parts_or sum,
      +ℤ_parts high low,
      -ℤ_parts (half view) (half sum),
      -ℤ_parts high low,
      +ℤ_parts low shift,
    ) in
    rw (fits, inside) (refl, refl)

-- Is the screen inside the view?
abbrev pub InView : ℤ → ℤ → UiScreen → Type 0
InView w v s =
    (pos 0 ≤ℤ s.pos_x) × (pos 0 ≤ℤ s.pos_y) × (s.pos_x +ℤ pos 86 ≤ℤ w) × (s.pos_y +ℤ pos 58 ≤ℤ v)

-- The screen is moved by exactly that much.
abbrev pub moved_by : ℤ → ℤ → UiScreen → UiScreen
moved_by dx dy s = record s { pos_x = s.pos_x +ℤ dx; pos_y = s.pos_y +ℤ dy }

move_screen_moves :
    (dx dy w v : ℤ) (s : UiScreen)
    → w ≤ℤ pos 600
    → v ≤ℤ pos 380
    → InView w v (moved_by dx dy s)
    → move_screen dx dy s ≡ moved_by dx dy s
unfolding move_screen set_pos_x set_pos_y
move_screen_moves dx dy w v s hw hv h =
    let x = +ℤ_parts (s.pos_x +ℤ dx) (pos 86) in
    let y = +ℤ_parts (s.pos_y +ℤ dy) (pos 58) in
    let left : leb_ℤ (s.pos_x +ℤ dx) (negsuc 85) ≡ false = ground arith in
    let right : leb_ℤ (pos 600) (s.pos_x +ℤ dx) ≡ false = ground (arith, x) in
    let top : leb_ℤ (s.pos_y +ℤ dy) (negsuc 57) ≡ false = ground arith in
    let bottom : leb_ℤ (pos 380) (s.pos_y +ℤ dy) ≡ false = ground (arith, y) in
    rw (left, right, top, bottom) refl

moved_by-InView :
    (b : Box) (w v dx dy : ℤ) (s : UiScreen)
    → Holds b s
    → pos 0 ≤ℤ b.top_left_x +ℤ dx
    → b.bottom_right_x +ℤ dx ≤ℤ w
    → pos 0 ≤ℤ b.top_left_y +ℤ dy
    → b.bottom_right_y +ℤ dy ≤ℤ v
    → InView w v (moved_by dx dy s)
moved_by-InView b w v dx dy s h a1 a2 b1 b2 =
    let x = +ℤ_parts (s.pos_x +ℤ dx) (pos 86) in
    let y = +ℤ_parts (s.pos_y +ℤ dy) (pos 58) in
    let x1 = +ℤ_parts s.pos_x (pos 86) in
    let y1 = +ℤ_parts s.pos_y (pos 58) in
    let x2 = +ℤ_parts s.pos_x dx in
    let y2 = +ℤ_parts s.pos_y dy in
    (
      ground (arith, x2, +ℤ_parts b.top_left_x dx),
      ground (arith, y2, +ℤ_parts b.top_left_y dy),
      ground (arith, x, x1, x2, +ℤ_parts b.bottom_right_x dx),
      ground (arith, y, y1, y2, +ℤ_parts b.bottom_right_y dy),
    )

-- How far all screens are moved.
abbrev pub shift_x : ℤ → Box → ℤ
shift_x w b = (centre_shift w b.top_left_x b.bottom_right_x).0

abbrev pub shift_y : ℤ → Box → ℤ
shift_y v b = (centre_shift v b.top_left_y b.bottom_right_y).0

-- The box has a width and a height that fit the view.
pub record Fits (w v : ℤ) (b : Box) : Type 0 where
  pub x_order : b.top_left_x ≤ℤ b.bottom_right_x
  pub y_order : b.top_left_y ≤ℤ b.bottom_right_y
  pub width_fits : b.bottom_right_x -ℤ b.top_left_x ≤ℤ w
  pub height_fits : b.bottom_right_y -ℤ b.top_left_y ≤ℤ v

adjust_all_moves :
    (dx dy w v : ℤ) (ss : List UiScreen)
    → w ≤ℤ pos 600
    → v ≤ℤ pos 380
    → All (λ s. InView w v (moved_by dx dy s)) ss
    → (adjust_all dx dy ss ≡ map (moved_by dx dy) ss) × All (InView w v) (map (moved_by dx dy) ss)
unfolding adjust_all
adjust_all_moves dx dy w v [] hw hv h = (refl, tt)
adjust_all_moves dx dy w v (s ∷ ss) hw hv h =
    let rest = adjust_all_moves dx dy w v ss hw hv h.1 in
    let first = move_screen_moves dx dy w v s hw hv h.0 in (λ i. first i ∷ rest.0 i, (h.0, rest.1))

-- If the box holds all screens and fits a view of at most 600 by 380, then adjustToCenter moves all
-- screens by the same distance, and each of them is inside the view then.
pub adjust_to_center_lem :
    (w v : ℤ) (b : Box) (ss : List UiScreen)
    → w ≤ℤ pos 600
    → v ≤ℤ pos 380
    → Fits w v b
    → All (Holds b) ss
    → ((adjust_to_center w v b ss).1 ≡ map (moved_by (shift_x w b) (shift_y v b)) ss)
      × All (InView w v) (map (moved_by (shift_x w b) (shift_y v b)) ss)
unfolding adjust_to_center
adjust_to_center_lem w v b ss hw hv f h =
    let on_x = centre_shift_inside w b.top_left_x b.bottom_right_x f.x_order f.width_fits in
    let on_y = centre_shift_inside v b.top_left_y b.bottom_right_y f.y_order f.height_fits in
    adjust_all_moves _ _ w v ss hw hv (
      All-map
        (λ s k. moved_by-InView b w v (shift_x w b) (shift_y v b) s k on_x.0 on_x.1 on_y.0 on_y.1)
        ss h)

-- If moreover the centre of the box has no negative coordinate, the box that adjustToCenter keeps
-- moves with the screens.
pub adjust_to_center_box :
    (w v : ℤ) (b : Box) (ss : List UiScreen)
    → Fits w v b
    → pos 0 ≤ℤ b.bottom_right_x +ℤ b.top_left_x
    → pos 0 ≤ℤ b.bottom_right_y +ℤ b.top_left_y
    → (adjust_to_center w v b ss).0 ≡ record {
      top_left_x = b.top_left_x +ℤ shift_x w b;
      top_left_y = b.top_left_y +ℤ shift_y v b;
      bottom_right_x = b.bottom_right_x +ℤ shift_x w b;
      bottom_right_y = b.bottom_right_y +ℤ shift_y v b;
    }
unfolding adjust_to_center
adjust_to_center_box w v b ss f hx hy =
    let on_x = centre_shift_follows w b.top_left_x b.bottom_right_x f.x_order f.width_fits hx in
    let on_y = centre_shift_follows v b.top_left_y b.bottom_right_y f.y_order f.height_fits hy in
    λ i. record {
      top_left_x = on_x.0 i;
      top_left_y = on_y.0 i;
      bottom_right_x = on_x.1 i;
      bottom_right_y = on_y.1 i;
    }
