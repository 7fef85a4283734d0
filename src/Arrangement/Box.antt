-- ===== src/Arrangement/Box.antt =====
-- ScreenBBArrangement.cpp: the bounding box of the screens, the place of a new screen beside it,
-- moving it to the centre of the view, and screens that collide or lie next to one another.
use Prim.Native.String.{String}
use synergy_hogsback.Prelude.{
  ℕ, suc, ◌*◌, ◌/◌, Bool, ◌&&◌, ◌||◌, ◌==◌, ltb, leb, if◌then◌else◌, List, [], ◌∷◌, Option, none,
  some,
}
use synergy_hogsback.Prelude.Int.{ℤ, pos, negsuc, ◌+ℤ◌, ◌-ℤ◌, eqb_ℤ, ltb_ℤ, nat_abs, half}
use synergy_hogsback.Arrangement.Screens.{
  UiScreen, screen_icon_width, screen_icon_height, set_pos_x, set_pos_y, get_screen_pos, adjust_all,
  get_screen,
}

pub record Box : Type 0 where
  pub top_left_x : ℤ
  pub top_left_y : ℤ
  pub bottom_right_x : ℤ
  pub bottom_right_y : ℤ

abbrev pub int_max : ℤ
int_max = pos 2147483647

abbrev pub int_min : ℤ
int_min = negsuc 2147483647

abbrev pub min_ℤ : ℤ → ℤ → ℤ
min_ℤ a b = if ltb_ℤ a b then a else b

abbrev pub max_ℤ : ℤ → ℤ → ℤ
max_ℤ a b = if ltb_ℤ b a then a else b

-- One screen is taken into the box.
unfoldable pub grow : Box → UiScreen → Box
grow b s = record {
  top_left_x = min_ℤ b.top_left_x s.pos_x;
  top_left_y = min_ℤ b.top_left_y s.pos_y;
  bottom_right_x = max_ℤ b.bottom_right_x (s.pos_x +ℤ pos screen_icon_width);
  bottom_right_y = max_ℤ b.bottom_right_y (s.pos_y +ℤ pos screen_icon_height);
}

-- The screens from index `i` on, without the one to ignore.
unfoldable pub grow_all : ℤ → ℕ → List UiScreen → Box → Box
grow_all ignore i [] b = b
grow_all ignore i (s ∷ ss) b =
    grow_all ignore (suc i) ss (if eqb_ℤ (pos i) ignore then b else grow b s)

abbrev pub no_box : Box
no_box = record {
  top_left_x = int_max;
  top_left_y = int_max;
  bottom_right_x = int_min;
  bottom_right_y = int_min;
}

abbrev pub or_zero : ℤ → ℤ → ℤ
or_zero sentinel a = if eqb_ℤ a sentinel then pos 0 else a

abbrev pub clear_sentinels : Box → Box
clear_sentinels b = record {
  top_left_x = or_zero int_max b.top_left_x;
  top_left_y = or_zero int_max b.top_left_y;
  bottom_right_x = or_zero int_min b.bottom_right_x;
  bottom_right_y = or_zero int_min b.bottom_right_y;
}

unfoldable pub recalculate_bounding_box : ℤ → List UiScreen → Box
recalculate_bounding_box ignore ss = clear_sentinels (grow_all ignore 0 ss no_box)

-- The distance of a point from an edge, in half percents of an icon.
abbrev pub distance_to : ℤ → ℤ → ℕ → ℕ
distance_to a edge size = nat_abs (a -ℤ edge) * 200 / size

abbrev pub min : ℕ → ℕ → ℕ
min a b = if ltb a b then a else b

abbrev pub max : ℕ → ℕ → ℕ
max a b = if ltb b a then a else b

-- The nearest edge of the box, from the distances to its four edges; of an edge on each axis that
-- are as near, the one on the axis that reaches farther.
unfoldable pub nearest_edge : {A : Type 0} → ℕ → ℕ → ℕ → ℕ → A → A → A → A → A → A
nearest_edge to_left to_right to_top to_bottom at_left at_right above below neither =
    let min_x = min to_left to_right in
    let min_y = min to_top to_bottom in
    let max_x = max to_left to_right in
    let max_y = max to_top to_bottom in
    if ltb min_x min_y || min_x == min_y && leb max_y max_x
    then (if ltb to_left to_right then at_left else at_right)
    else (if ltb min_y min_x || min_x == min_y && ltb max_x max_y
        then (if ltb to_top to_bottom then above else below)
        else neither)

-- The place beside the edge of the box that is nearest to the place asked for.
unfoldable pub place_beside : Box → ℤ → ℤ → UiScreen → UiScreen
place_beside b x y s =
    let check_x = x +ℤ pos (screen_icon_width / 2) in
    let check_y = y +ℤ pos (screen_icon_height / 2) in
    nearest_edge (distance_to check_x b.top_left_x screen_icon_width)
      (distance_to check_x b.bottom_right_x screen_icon_width)
      (distance_to check_y b.top_left_y screen_icon_height)
      (distance_to check_y b.bottom_right_y screen_icon_height)
      (set_pos_y y (set_pos_x (b.top_left_x -ℤ pos screen_icon_width) s))
      (set_pos_y y (set_pos_x b.bottom_right_x s))
      (set_pos_y (b.top_left_y -ℤ pos screen_icon_height) (set_pos_x x s))
      (set_pos_y b.bottom_right_y (set_pos_x x s)) s

-- The place a screen asks for: its own, or for a new screen that of the local one, if it is there.
abbrev pub wanted_place : ℤ → ℤ → String → List UiScreen → UiScreen → ℤ × ℤ
wanted_place scaled_w scaled_h local ss s =
    let centre_x = half scaled_w -ℤ pos (screen_icon_width / 2) in
    let centre_y = half scaled_h -ℤ pos (screen_icon_height / 2) in
    let by_name = get_screen_pos local (centre_x, centre_y) ss in
    if eqb_ℤ s.pos_x (negsuc 0) && eqb_ℤ s.pos_y (negsuc 0) then by_name else (s.pos_x, s.pos_y)

-- The box has no area.
abbrev pub is_flat : Box → Bool
is_flat b =
    eqb_ℤ (b.top_left_x -ℤ b.bottom_right_x) (pos 0)
    || eqb_ℤ (b.top_left_y -ℤ b.bottom_right_y) (pos 0)

unfoldable pub calculate_new_pos : ℤ → ℤ → Box → String → List UiScreen → UiScreen → UiScreen
calculate_new_pos scaled_w scaled_h b local ss s =
    let wanted = wanted_place scaled_w scaled_h local ss s in
    let there = set_pos_y wanted.1 (set_pos_x wanted.0 s) in
    let beside = place_beside b wanted.0 wanted.1 s in if is_flat b then there else beside

-- The shift along an axis that moves the box to the centre, and into the view.
unfoldable pub centre_shift : ℤ → ℤ → ℤ → ℤ × ℤ × ℤ
centre_shift view low high =
    let shift = half view -ℤ half (high +ℤ low) in
    let low1 = low +ℤ shift in
    let high1 = high +ℤ shift in
    let shift2 = if ltb_ℤ low1 (pos 0) then shift -ℤ low1 else shift in
    let low2 = if ltb_ℤ low1 (pos 0) then pos 0 else low1 in
    let shift3 = if ltb_ℤ view high1 then shift2 -ℤ (high1 -ℤ view) else shift2 in
    let high2 = if ltb_ℤ view high1 then view else high1 in (shift3, low2, high2)

unfoldable pub adjust_to_center : ℤ → ℤ → Box → List UiScreen → Box × List UiScreen
adjust_to_center scaled_w scaled_h b ss =
    let on_x = centre_shift scaled_w b.top_left_x b.bottom_right_x in
    let on_y = centre_shift scaled_h b.top_left_y b.bottom_right_y in
    let box : Box = record {
      top_left_x = on_x.1;
      top_left_y = on_y.1;
      bottom_right_x = on_x.2;
      bottom_right_y = on_y.2;
    } in
    (box, adjust_all on_x.0 on_y.0 ss)

pub record Rect : Type 0 where
  pub left : ℤ
  pub top : ℤ
  pub width : ℤ
  pub height : ℤ

unfoldable pub collide : Rect → Rect → Bool
collide src des =
    ltb_ℤ src.left (des.left +ℤ des.width)
    && ltb_ℤ src.top (des.top +ℤ des.height)
    && ltb_ℤ des.left (src.left +ℤ src.width)
    && ltb_ℤ des.top (src.top +ℤ src.height)

abbrev pub icon : UiScreen → Rect
icon s = record {
  left = s.pos_x;
  top = s.pos_y;
  width = pos screen_icon_width;
  height = pos screen_icon_height;
}

-- The indices, from `i` on and without the one given, of the screens that meet a rectangle.
unfoldable pub meeting : ℤ → Rect → ℕ → List UiScreen → List ℕ
meeting index area i [] = []
meeting index area i (s ∷ ss) =
    let rest = meeting index area (suc i) ss in
    if eqb_ℤ (pos i) index then rest else (if collide area (icon s) then i ∷ rest else rest)

unfoldable pub collide_with_others : ℤ → List UiScreen → Option (List ℕ)
collide_with_others index ss = elim (get_screen ss index) [
  | none ↦ none
  | some s ↦ some (meeting index (icon s) 0 ss)
]

pub data Direction : Type 0 where
  left : Direction
  right : Direction
  up : Direction
  down : Direction

-- The part of the view on that side of the screen.
unfoldable pub area_beside : ℤ → ℤ → Direction → UiScreen → Rect
area_beside scaled_w scaled_h left s = record (icon s) { left = pos 0; width = s.pos_x }
area_beside scaled_w scaled_h right s =
    let start = s.pos_x +ℤ pos screen_icon_width in
    record (icon s) { left = start; width = scaled_w -ℤ start }
area_beside scaled_w scaled_h up s = record (icon s) { top = pos 0; height = s.pos_y }
area_beside scaled_w scaled_h down s =
    let start = s.pos_y +ℤ pos screen_icon_height in
    record (icon s) { top = start; height = scaled_h -ℤ start }

unfoldable pub get_screens_next_to : ℤ → ℤ → List UiScreen → ℤ → Direction → Option (List ℕ)
get_screens_next_to scaled_w scaled_h ss index dir = elim (get_screen ss index) [
  | none ↦ none
  | some s ↦ some (meeting index (area_beside scaled_w scaled_h dir s) 0 ss)
]
