-- ===== src/Arrangement/Layout.antt =====
-- ScreenBBArrangement.cpp: the arrangement with the list of screens that it works on, and its
-- operations. The scale is a float, whose operations are parameters.
use Prim.Native.String.{String}
use synergy_hogsback.Prelude.{
  ◌>>=◌, ℕ, Bool, true, false, ◌&&◌, ◌||◌, if◌then◌else◌, List, [], ◌∷◌, Option, none, some,
}
use synergy_hogsback.Prelude.Int.{ℤ, pos, negsuc, ◌+ℤ◌, ◌-ℤ◌, ltb_ℤ}
use synergy_hogsback.Arrangement.Screens.{
  UiScreen, default_view_width, default_view_height, new_screen, set_pos_x, set_pos_y, get_screen,
  move_model, add_screen_row, remove_screen_row,
}
use synergy_hogsback.Arrangement.Box.{
  Box, recalculate_bounding_box, calculate_new_pos, adjust_to_center, collide_with_others,
}
use synergy_hogsback.Arrangement.Snapping.{can_snap, snap_to_others}

abbrev pub is_empty : List ℕ → Bool
is_empty [] = true
is_empty (i ∷ is) = false

-- The operations on floats, after C++.
pub record Floats (F : Type 0) : Type 0 where
  pub one : F
  -- `a / (float)b`
  pub ratio : ℤ → ℤ → F
  -- `1 / x`
  pub inverse : F → F
  -- `x > y`
  pub greater : F → F → Bool
  -- `x == y`
  pub equal : F → F → Bool
  -- `(int)(a * x)`
  pub times : ℤ → F → ℤ

pub record Layout (F : Type 0) : Type 0 where
  pub original_view_w : ℤ
  pub original_view_h : ℤ
  pub scaled_view_w : ℤ
  pub scaled_view_h : ℤ
  pub box : Box
  pub scale : F
  pub screens : List UiScreen
  pub model_scale : F

module _ {F : Type 0} (fl : Floats F) where
  unfoldable pub new_layout : Layout F
  new_layout = record {
    original_view_w = pos default_view_width;
    original_view_h = pos default_view_height;
    scaled_view_w = pos default_view_width;
    scaled_view_h = pos default_view_height;
    box = record {
      top_left_x = pos 0;
      top_left_y = pos 0;
      bottom_right_x = pos 0;
      bottom_right_y = pos 0;
    };
    scale = fl.one;
    screens = [];
    model_scale = fl.one;
  }

  -- Is the box outside the view?
  abbrev pub is_outside : Layout F → Bool
  is_outside l =
      ltb_ℤ l.box.top_left_x (pos 0)
      || ltb_ℤ l.box.top_left_y (pos 0)
      || ltb_ℤ l.scaled_view_w l.box.bottom_right_x
      || ltb_ℤ l.scaled_view_h l.box.bottom_right_y

  abbrev pub twice : ℤ → ℤ
  twice a = a +ℤ a

  -- Is one and a half times the box smaller than the view?
  abbrev pub is_loose : Layout F → Bool
  is_loose l =
      let w = l.box.bottom_right_x -ℤ l.box.top_left_x in
      let h = l.box.bottom_right_y -ℤ l.box.top_left_y in
      ltb_ℤ (twice w +ℤ w) (twice l.scaled_view_w) || ltb_ℤ (twice h +ℤ h) (twice l.scaled_view_h)

  abbrev pub centred : Layout F → Layout F
  centred l =
      let moved = adjust_to_center l.scaled_view_w l.scaled_view_h l.box l.screens in
      record l { box = moved.0; screens = moved.1 }

  -- The scale follows the box, and the view the scale.
  abbrev pub rescaled : Layout F → Layout F
  rescaled l =
      let on_x = fl.ratio (l.box.bottom_right_x -ℤ l.box.top_left_x) l.original_view_w in
      let on_y = fl.ratio (l.box.bottom_right_y -ℤ l.box.top_left_y) l.original_view_h in
      let max_times = if fl.greater on_x on_y then on_x else on_y in
      let inverse = fl.inverse max_times in
      let large = fl.greater inverse fl.one in
      let scale = if large then fl.one else inverse in
      let times = if large then fl.one else max_times in
      record l {
        scale = scale;
        model_scale = scale;
        scaled_view_w = fl.times l.original_view_w times;
        scaled_view_h = fl.times l.original_view_h times;
      }

  unfoldable pub check_adjustment : Bool → Layout F → Layout F
  check_adjustment force_center l =
      let was_outside = is_outside l in
      let scaled = rescaled l in
      let in_centre = centred scaled in
      let to_centre =
        fl.greater l.scale scaled.scale
        || fl.greater fl.one l.scale && fl.equal scaled.scale fl.one
        || was_outside
        || force_center in
      if (was_outside || is_loose l) || force_center
      then (if to_centre then in_centre else scaled)
      else l

  abbrev pub recalculated : ℤ → Layout F → Layout F
  recalculated ignore l = record l { box = recalculate_bounding_box ignore l.screens }

  unfoldable pub update : Layout F → Layout F
  update l = check_adjustment false (recalculated (negsuc 0) l)

  -- The host name of this computer is an argument.
  unfoldable pub add_screen : String → UiScreen → Layout F → Layout F
  add_screen local s l =
      let placed = calculate_new_pos l.scaled_view_w l.scaled_view_h l.box local l.screens s in
      update (record l { screens = add_screen_row placed l.screens })

  unfoldable pub remove_screen : ℤ → Layout F → Option (Layout F)
  remove_screen id l = elim (remove_screen_row id l.screens) [
    | none ↦ none
    | some rest ↦ some (update (record l { screens = rest }))
  ]

  -- Put a screen beside the box of the others.
  unfoldable pub adjust_by_box : String → ℤ → UiScreen → Layout F → Layout F
  adjust_by_box local index original l =
      let boxed = recalculated index l in
      let temp = set_pos_y original.pos_y (set_pos_x original.pos_x (new_screen "temp")) in
      let s =
        calculate_new_pos boxed.scaled_view_w boxed.scaled_view_h boxed.box local boxed.screens
          temp in
      update (record boxed {
        screens =
            move_model index (s.pos_x -ℤ original.pos_x) (s.pos_y -ℤ original.pos_y) boxed.screens;
      })

  -- When snapping leads to an overlap, the code moves the screen by the same offset again, which
  -- its comment calls reverting.
  unfoldable pub adjust_after_snap : String → ℤ → UiScreen → Layout F → Option (Layout F)
  adjust_after_snap local index before l = do
    let snapped : List UiScreen = snap_to_others before index l.screens
    s ← get_screen snapped index
    others ← collide_with_others index snapped
    let again : List UiScreen =
        move_model index (s.pos_x -ℤ before.pos_x) (s.pos_y -ℤ before.pos_y) snapped
    original ← get_screen again index
    let beside : Layout F = adjust_by_box local index original (record l { screens = again })
    let kept : Layout F = update (record l { screens = snapped })
    some (if is_empty others then kept else beside)

  -- A screen has been moved.
  unfoldable pub adjust_model : String → ℤ → Layout F → Option (Layout F)
  adjust_model local index l = do
    s ← get_screen l.screens index
    let after_snap : Option (Layout F) = adjust_after_snap local index s l
    let beside : Layout F = adjust_by_box local index s l
    if can_snap s index l.screens then after_snap else some beside
