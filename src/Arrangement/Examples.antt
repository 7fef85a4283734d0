-- ===== src/Arrangement/Examples.antt =====
-- ScreenListModel.cpp and ScreenBBArrangement.cpp on small arrangements; fractions stand for floats.
use synergy_hogsback.Prelude.{
  ℕ, ◌*◌, ◌/◌, ◌==◌, ltb, true, false, ◌||◌, ◌≡◌, refl, List, [], ◌∷◌, map, Option, none, some,
  arith, All, ◌↔◌, inl,
}
use synergy_hogsback.Prelude.Int.{ℤ, pos, negsuc, pos_part, ◌+ℤ◌, ◌≤ℤ◌, ◌-ℤ◌, half}
use synergy_hogsback.Arrangement.Screens.{
  UiScreen, new_screen, set_pos_x, set_pos_y, move_screen, move_model, adjust_all, get_screen_pos,
  update_screens, set_screen_status,
}
use synergy_hogsback.Profile.Config.{connected}
use synergy_hogsback.Arrangement.Box.{
  Box, Rect, Direction, collide, icon, meeting, recalculate_bounding_box, grow_all, grow,
  calculate_new_pos, place_beside, nearest_edge, is_flat, adjust_to_center, centre_shift,
  collide_with_others, int_max,
}
use synergy_hogsback.Arrangement.Snapping.{
  calculate_snapping, smaller_shift, combine_adjustments, one_axis, test_snap, test_snap_to_on_axis,
  snapping_threshold, can_snap, snap_to_others,
}
use synergy_hogsback.Arrangement.Layout.{
  Floats, Layout, update, check_adjustment, adjust_model, adjust_by_box, adjust_after_snap,
}
use synergy_hogsback.Arrangement.Visible.{IsVisible, AreVisible}
use synergy_hogsback.Arrangement.History.{
  Operation, perform, Outcome, perform-Outcome, BringsVisible,
}
use synergy_hogsback.Arrangement.Bounding.{
  Holds, IsLeastBox, HasOther, recalculate_bounding_box-IsLeastBox,
}
use synergy_hogsback.Arrangement.Centre.{
  Fits, InView, moved_by, shift_x, shift_y, adjust_to_center_lem, adjust_to_center_box,
}
use synergy_hogsback.Arrangement.Collisions.{
  Contains, collide_iff, calculate_snapping_parts, shifted,
}
use synergy_hogsback.Arrangement.Placing.{calculate_new_pos_clear}
use synergy_hogsback.Arrangement.Neighbours.{is_next_to, is_next_to-opposite}
use synergy_hogsback.Arrangement.Lookup.{lookup, last_of, lookup-update_screens}
use synergy_hogsback.Arrangement.Overlap.{test_snap_lem, overlaps_little}

-- A fraction: numerator and denominator.
abbrev fractions : Floats (ℕ × ℕ)
fractions = record {
  one = (1, 1);
  ratio = λ a b. (pos_part a, pos_part b);
  inverse = λ x. (x.1, x.0);
  greater = λ x y. ltb (y.0 * x.1) (x.0 * y.1);
  equal = λ x y. x.0 * y.1 == y.0 * x.1;
  times = λ a x. pos (pos_part a * x.0 / x.1);
}

abbrev screen_at : ℤ → ℤ → ℤ → UiScreen
screen_at d x y = record (new_screen "s") { id = d; pos_x = x; pos_y = y }

abbrev one : UiScreen
one = screen_at (pos 1) (pos 200) (pos 150)

abbrev two : UiScreen
two = screen_at (pos 2) (pos 290) (pos 160)

abbrev both : List UiScreen
both = one ∷ two ∷ []

abbrev box : Box
box = record {
  top_left_x = pos 200;
  top_left_y = pos 150;
  bottom_right_x = pos 376;
  bottom_right_y = pos 218;
}

recalculate_test : recalculate_bounding_box (negsuc 0) both ≡ box
unfolding recalculate_bounding_box grow_all grow ◌+ℤ◌
recalculate_test = refl

-- An index equal to the length of the list is let through, and there is no such screen.
set_screen_status_test : set_screen_status (pos 2) connected both ≡ none
unfolding set_screen_status
set_screen_status_test = refl

-- A box against the left side of the view has no room there, and the place of the new screen is
-- refused.
refused_test :
    collide
      (icon (
        place_beside
          (record {
            top_left_x = pos 0;
            top_left_y = pos 0;
            bottom_right_x = pos 86;
            bottom_right_y = pos 58;
          })
          (negsuc 4)
          (pos 0)
          (screen_at (pos 3) (negsuc 4) (pos 0))))
      (icon (screen_at (pos 1) (pos 0) (pos 0)))
    ≡ true
unfolding place_beside nearest_edge collide set_pos_x set_pos_y ◌+ℤ◌ ◌-ℤ◌
refused_test = refl

-- The box that is kept after a clamp does not follow the screens.
clamp_test : centre_shift (pos 101) (negsuc 199) (negsuc 98) ≡ (pos 200, pos 0, pos 100)
unfolding centre_shift half ◌+ℤ◌ ◌-ℤ◌
clamp_test = refl

abbrev arranged : Layout (ℕ × ℕ)
arranged = record {
  original_view_w = pos 600;
  original_view_h = pos 380;
  scaled_view_w = pos 600;
  scaled_view_h = pos 380;
  box = box;
  scale = (1, 1);
  screens = both;
  model_scale = (1, 1);
}

both-AreVisible : AreVisible both
unfolding AreVisible IsVisible
both-AreVisible = (
  (omega arith, omega arith, omega arith, omega arith),
  ((omega arith, omega arith, omega arith, omega arith), tt),
)

two-Held : Holds box two
unfolding ◌+ℤ◌
two-Held = (omega arith, omega arith, omega arith, omega arith)

one-Held : Holds box one
unfolding ◌+ℤ◌
one-Held = (omega arith, omega arith, omega arith, omega arith)

centre_x : pos 0 ≤ℤ pos 376 +ℤ pos 200
unfolding ◌+ℤ◌
centre_x = omega arith

centre_y : pos 0 ≤ℤ pos 218 +ℤ pos 150
unfolding ◌+ℤ◌
centre_y = omega arith

one-IsVisible : IsVisible one
unfolding IsVisible
one-IsVisible = (omega arith, omega arith, omega arith, omega arith)

two-IsVisible : IsVisible two
unfolding IsVisible
two-IsVisible = (omega arith, omega arith, omega arith, omega arith)

box-HasArea : is_flat box ≡ false
unfolding ◌-ℤ◌
box-HasArea = refl

brings : BringsVisible (Operation.drop (pos 1))
unfolding BringsVisible
brings = tt

there : HasOther (negsuc 0) 0 both
unfolding HasOther
there = inl refl

perform-Outcome_example :
    Outcome fractions "local"
      (Operation.drop (pos 1))
      both
      (perform fractions "local" (Operation.drop (pos 1)) arranged)
perform-Outcome_example =
    perform-Outcome fractions "local" (Operation.drop (pos 1)) arranged brings both-AreVisible

-- The second screen snaps to the first one.
abbrev pos_of : Option (Layout (ℕ × ℕ)) → List (ℤ × ℤ)
pos_of none = []
pos_of (some l) = map (λ (s : UiScreen). (s.pos_x, s.pos_y)) l.screens

drop_test :
    pos_of (adjust_model fractions "local" (pos 1) arranged)
    ≡ (pos 200, pos 150) ∷ (pos 286, pos 160) ∷ []
unfolding adjust_model adjust_after_snap adjust_by_box update check_adjustment
    recalculate_bounding_box grow_all grow adjust_to_center centre_shift adjust_all move_screen
    move_model set_pos_x set_pos_y collide_with_others collide meeting can_snap test_snap
    test_snap_to_on_axis snap_to_others combine_adjustments one_axis calculate_snapping
    smaller_shift calculate_new_pos get_screen_pos place_beside nearest_edge half ◌+ℤ◌ ◌-ℤ◌
drop_test = refl

recalculate_bounding_box-IsLeastBox_example :
    IsLeastBox (negsuc 0) both (recalculate_bounding_box (negsuc 0) both)
recalculate_bounding_box-IsLeastBox_example =
    recalculate_bounding_box-IsLeastBox (negsuc 0) both both-AreVisible there

abbrev rect : ℤ → ℤ → Rect
rect x y = record { left = x; top = y; width = pos 3; height = pos 2 }

collide_iff_example : (collide (rect (pos 0) (pos 0)) (rect (pos 2) (pos 1)) ≡ true) ↔ (
    (x : ℤ) × (y : ℤ) × Contains (rect (pos 0) (pos 0)) x y × Contains (rect (pos 2) (pos 1)) x y)
collide_iff_example =
    collide_iff (rect (pos 0) (pos 0)) (rect (pos 2) (pos 1)) (omega arith) (omega arith)
      (omega arith) (omega arith)

calculate_new_pos_clear_example :
    collide
      (icon (
        calculate_new_pos
          (pos 600)
          (pos 380)
          box
          "local"
          both
          (screen_at (pos 3) (pos 210) (pos 155))))
      (icon two)
    ≡ false
calculate_new_pos_clear_example =
    calculate_new_pos_clear (pos 600) (pos 380) box "local" both
      (screen_at (pos 3) (pos 210) (pos 155)) two
      (record {
        left_room = omega arith;
        right_room = omega arith;
        top_room = omega arith;
        bottom_room = omega arith;
        x_order = omega arith;
        y_order = omega arith;
      })
      box-HasArea two-Held

box-Fits : Fits (pos 600) (pos 380) box
unfolding ◌-ℤ◌
box-Fits = record {
  x_order = omega arith;
  y_order = omega arith;
  width_fits = omega arith;
  height_fits = omega arith;
}

adjust_to_center_lem_example :
    ((adjust_to_center (pos 600) (pos 380) box both).1
      ≡ map (moved_by (shift_x (pos 600) box) (shift_y (pos 380) box)) both)
    × All
        (InView (pos 600) (pos 380))
        (map (moved_by (shift_x (pos 600) box) (shift_y (pos 380) box)) both)
adjust_to_center_lem_example =
    adjust_to_center_lem (pos 600) (pos 380) box both (omega arith) (omega arith) box-Fits
      (one-Held, (two-Held, tt))

adjust_to_center_box_example : (adjust_to_center (pos 600) (pos 380) box both).0 ≡ record {
  top_left_x = pos 200 +ℤ shift_x (pos 600) box;
  top_left_y = pos 150 +ℤ shift_y (pos 380) box;
  bottom_right_x = pos 376 +ℤ shift_x (pos 600) box;
  bottom_right_y = pos 218 +ℤ shift_y (pos 380) box;
}
adjust_to_center_box_example =
    adjust_to_center_box (pos 600) (pos 380) box both box-Fits centre_x centre_y

calculate_snapping_parts_example :
    collide (icon (shifted (calculate_snapping two one) two)) (icon one) ≡ false
calculate_snapping_parts_example = calculate_snapping_parts two one refl

is_next_to-opposite_example :
    is_next_to (pos 600) (pos 380) both 0 Direction.right 1
    ≡ is_next_to (pos 600) (pos 380) both 1 Direction.left 0
is_next_to-opposite_example =
    is_next_to-opposite (pos 600) (pos 380) both 0 1 Direction.right one two refl refl
      (one-IsVisible, omega arith, omega arith) (two-IsVisible, omega arith, omega arith)

lookup-update_screens_example :
    lookup (pos 2) (update_screens (screen_at (pos 2) (pos 0) (pos 0) ∷ []) both)
    ≡ last_of (pos 2) (screen_at (pos 2) (pos 0) (pos 0) ∷ []) (lookup (pos 2) both)
lookup-update_screens_example =
    lookup-update_screens (pos 2) (screen_at (pos 2) (pos 0) (pos 0) ∷ []) both

test_snap_lem_example :
    test_snap two one snapping_threshold int_max
    ≡ (overlaps_little (pos 290) (pos 200) 86 || overlaps_little (pos 160) (pos 150) 58)
test_snap_lem_example = test_snap_lem two one two-IsVisible one-IsVisible
