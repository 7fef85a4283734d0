-- ===== src/Profile/Examples.antt =====
-- ProfileConfig.cpp on two small profiles.
use synergy_hogsback.Prelude.{◌≡◌, refl, Bool, true, false, not, List, [], ◌∷◌}
use synergy_hogsback.Prelude.Int.{ℤ, pos}
use synergy_hogsback.Profile.Config.{
  disconnected, Screen, ProfileConfig, screen_set_changed, screen_online, screen_offline, compare,
  apply, compare_sets, compare_screens, compare_with, compare_screen, compare_profiles, note,
  added_screens, removed_screens,
}
use synergy_hogsback.Profile.Online.{is_active, hear_all}
use synergy_hogsback.Profile.Apply.{is_silent, compare-IsFlagged, apply_tells_online}

abbrev screen : ℤ → Bool → Screen
screen id active = record {
  id = id;
  name = "s";
  active = active;
  x = pos 0;
  y = pos 0;
  width = pos 86;
  height = pos 58;
  status = disconnected;
  ip_list = "";
  error_code = 0;
  error_message = "";
}

abbrev profile : ℤ → List Screen → ProfileConfig
profile version screens = record {
  profile = record { id = pos 1; version = version; server = pos 3; name = "p" };
  screens = screens;
}

abbrev before : ProfileConfig
before = profile (pos 4) (screen (pos 3) true ∷ screen (pos 5) true ∷ [])

-- Screen 3 goes offline, screen 5 goes, and screen 6 comes.
abbrev after : ProfileConfig
after = profile (pos 5) (screen (pos 3) false ∷ screen (pos 6) true ∷ [])

compare_test :
    (compare before after).signals
    ≡ screen_offline (screen (pos 3) false)
      ∷ screen_set_changed (screen (pos 6) true ∷ []) (screen (pos 5) true ∷ [])
      ∷ screen_online (screen (pos 6) true)
      ∷ []
unfolding compare compare_sets compare_screens compare_with compare_screen compare_profiles note
    added_screens removed_screens
compare_test = refl

compare-IsFlagged_example :
    (compare before after).different ≡ not (is_silent (compare before after).signals)
compare-IsFlagged_example = compare-IsFlagged before after

apply_tells_online_example :
    hear_all (pos 5) true (apply before after).1 ≡ is_active (pos 5) (apply before after).0.screens
apply_tells_online_example =
    apply_tells_online (pos 5) before after (λ h. ground_false h, (λ h. refl, tt))
      (λ h. refl, (λ h. refl, tt))
  where
    ground_false : false ≡ true → true ≡ false
    ground_false h = cc
