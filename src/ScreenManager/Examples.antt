-- ===== src/ScreenManager/Examples.antt =====
-- ScreenManager.cpp: a first snapshot, and a request for a screen that is not there.
use synergy_hogsback.Prelude.{
  ℕ, ◌*◌, ◌/◌, ◌==◌, ltb, true, false, ◌≡◌, refl, List, [], ◌∷◌, map, Option, none, some,
}
use synergy_hogsback.Prelude.Int.{ℤ, pos, negsuc, pos_part, ◌+ℤ◌, ◌-ℤ◌, half}
use synergy_hogsback.Arrangement.Screens.{
  UiScreen, set_pos_x, set_pos_y, move_screen, adjust_all, get_screen_pos, update_screens,
  update_one, remove_screen_row,
}
use synergy_hogsback.Arrangement.Box.{
  recalculate_bounding_box, grow_all, grow, calculate_new_pos, place_beside, nearest_edge,
  adjust_to_center, centre_shift,
}
use synergy_hogsback.Arrangement.Layout.{
  Floats, new_layout, add_screen, remove_screen, update, check_adjustment,
}
use synergy_hogsback.Arrangement.Visible.{AreVisible}
use synergy_hogsback.ScreenManager.State.{
  JsonScreen, Snapshot, Settings, ScreenManager, received_screens, serve, on_screens, take_snapshot,
  finish, add_named, remove_unsubscribed, remove_screen_by_id, remove_screen_by_index, remove_found,
  from_json, screen_of, string_to_screen_status, on_update_profile_config,
}
use synergy_hogsback.ScreenManager.Serve.{IsServed, serve-IsServed}

abbrev fractions : Floats (ℕ × ℕ)
fractions = record {
  one = (1, 1);
  ratio = λ a b. (pos_part a, pos_part b);
  inverse = λ x. (x.1, x.0);
  greater = λ x y. ltb (y.0 * x.1) (x.0 * y.1);
  equal = λ x y. x.0 * y.1 == y.0 * x.1;
  times = λ a x. pos (pos_part a * x.0 / x.1);
}

abbrev app : Settings
app = record { screen_id = pos 7; profile_id = pos 1; host = "here" }

abbrev begun : ScreenManager (ℕ × ℕ)
begun = record {
  layout = new_layout fractions;
  config_version = negsuc 0;
  overflowed = false;
  server_id = negsuc 0;
  screen_ids = [];
  single = false;
  sent = [];
}

abbrev json : ℤ → ℤ → JsonScreen
json d x = record {
  id = d;
  name = "s";
  version = pos 0;
  x_pos = x;
  y_pos = pos 150;
  status = "Connected";
  error_code = 0;
  error_message = "";
  active = true;
}

abbrev snapshot : Snapshot
snapshot = record {
  config_version = pos 4;
  server = pos 8;
  screens = json (pos 7) (pos 200) ∷ json (pos 8) (pos 290) ∷ [];
}

abbrev places : Option (ScreenManager (ℕ × ℕ)) → List (ℤ × ℤ)
places none = []
places (some m) = map (λ (s : UiScreen). (s.id, s.pos_x)) m.layout.screens

-- The screen that stood for this computer goes, and the two of the snapshot come.
received_test :
    places (
      serve fractions app (received_screens (some snapshot)) (add_named fractions app "here" begun))
    ≡ (pos 7, pos 200) ∷ (pos 8, pos 290) ∷ []
unfolding serve on_screens take_snapshot finish add_named remove_unsubscribed remove_screen_by_id
    remove_screen_by_index remove_found from_json screen_of string_to_screen_status
    on_update_profile_config new_layout add_screen remove_screen update check_adjustment
    recalculate_bounding_box grow_all grow calculate_new_pos place_beside nearest_edge
    adjust_to_center centre_shift set_pos_x set_pos_y move_screen adjust_all get_screen_pos
    update_screens update_one remove_screen_row half ◌+ℤ◌ ◌-ℤ◌
received_test = refl

-- A screen with a status of another name ends the program.
abbrev misnamed : Snapshot
misnamed = record snapshot { screens = record (json (pos 7) (pos 200)) { status = "Lost" } ∷ [] }

misnamed_test : serve fractions app (received_screens (some misnamed)) begun ≡ none
unfolding serve on_screens take_snapshot from_json string_to_screen_status new_layout
misnamed_test = refl

begun-AreVisible : AreVisible begun.layout.screens
unfolding AreVisible new_layout
begun-AreVisible = tt

serve-IsServed_example :
    IsServed fractions app
      (received_screens (some snapshot))
      begun
      (serve fractions app (received_screens (some snapshot)) begun)
serve-IsServed_example =
    serve-IsServed fractions app (received_screens (some snapshot)) begun begun-AreVisible
