-- ===== src/Links/Examples.antt =====
-- ConfigGen.cpp: linkScreens on three screens.
use synergy_hogsback.Prelude.{true, ◌≡◌, refl, List, [], ◌∷◌, Option, none, some, get_elem?, map}
use synergy_hogsback.Prelude.Int.{ℤ, pos, ◌+ℤ◌}
use synergy_hogsback.Profile.Config.{Screen, inactive}
use synergy_hogsback.Links.Edges.{
  Direction, left, ScreenLinks, edge, number, link_screens, links_of, link_left, link_right,
  link_up, link_down,
}
use synergy_hogsback.Links.Nearest.{IsLast}
use synergy_hogsback.Links.Screens.{reaches, farther, link_screens-IsLast}
use synergy_hogsback.Links.Listed.{Entries, entries, entries-EdgeLaws}

abbrev screen : ℤ → ℤ → ℤ → Screen
screen d x y = record {
  id = d;
  name = "s";
  active = true;
  x = x;
  y = y;
  width = pos 86;
  height = pos 58;
  status = inactive;
  ip_list = "";
  error_code = 0;
  error_message = "";
}

-- Two screens in a row, and one farther to the left and a little lower.
abbrev three : List Screen
three =
    screen (pos 1) (pos 300) (pos 100)
    ∷ screen (pos 2) (pos 200) (pos 90)
    ∷ screen (pos 3) (pos 100) (pos 120)
    ∷ []

abbrev left_of_first : ℤ → Option (ScreenLinks Entries) → Option ℤ
left_of_first p none = none
left_of_first p (some links) = entries.value (edge left links) p

-- The second screen is the nearer one where it lies beside the first; below it the third is linked.
link_screens_test :
    map
      (λ p. left_of_first p (get_elem? (link_screens entries three) 0))
      (pos 99 ∷ pos 100 ∷ pos 148 ∷ pos 149 ∷ pos 158 ∷ pos 159 ∷ [])
    ≡ none ∷ some (pos 2) ∷ some (pos 2) ∷ some (pos 3) ∷ some (pos 3) ∷ none ∷ []
unfolding link_screens links_of link_left link_right link_up link_down ◌+ℤ◌
link_screens_test = refl

link_screens-IsLast_example :
    (links : ScreenLinks Entries) × (get_elem? (link_screens entries three) 0 ≡ some links)
    × ((dir : Direction) (p : ℤ)
        → IsLast
            (reaches dir (0, screen (pos 1) (pos 300) (pos 100)) p)
            (farther dir)
            (number 0 three)
            (entries.value (edge dir links) p))
link_screens-IsLast_example =
    link_screens-IsLast entries entries-EdgeLaws three 0 (screen (pos 1) (pos 300) (pos 100))
      (refl, (refl, (refl, tt))) refl
