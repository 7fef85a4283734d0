-- ===== src/Arrangement/Snapping.antt =====
-- ScreenBBArrangement.cpp: snapping a screen to the others. The adjustments are held in floats,
-- which represent the whole numbers of a view exactly.
use synergy_hogsback.Prelude.{
  ℕ, suc, Bool, true, false, not, ◌&&◌, ◌||◌, ◌==◌, ltb, if◌then◌else◌, List, [], ◌∷◌, length,
}
use synergy_hogsback.Prelude.Int.{ℤ, pos, ◌+ℤ◌, ◌-ℤ◌, eqb_ℤ, ltb_ℤ, leb_ℤ, nat_abs}
use synergy_hogsback.Arrangement.Screens.{
  UiScreen, screen_icon_width, screen_icon_height, move_model,
}
use synergy_hogsback.Arrangement.Box.{int_max, int_min}

abbrev pub snapping_threshold : ℤ
snapping_threshold = pos 7

abbrev pub icon_size : Bool → ℤ
icon_size on_axis_x = if on_axis_x then pos screen_icon_width else pos screen_icon_height

-- The marks of the interval where snapping is allowed; the outer ones stay within an `int`.
abbrev pub interval_mark1 : ℤ → ℤ → ℤ → ℤ
interval_mark1 to outside size =
    if ltb_ℤ to ((int_min +ℤ outside) +ℤ size) then int_min else (to -ℤ outside) -ℤ size

abbrev pub interval_mark4 : ℤ → ℤ → ℤ → ℤ
interval_mark4 to outside size =
    if ltb_ℤ (int_max -ℤ outside) (to +ℤ size) then int_max else (to +ℤ size) +ℤ outside

unfoldable pub test_snap_to_on_axis : ℤ → ℤ → ℤ → ℤ → Bool → Bool
test_snap_to_on_axis from to inner outside on_axis_x =
    let size = icon_size on_axis_x in
    let mark1 = interval_mark1 to outside size in
    let mark2 = (to +ℤ inner) -ℤ size in
    let mark3 = (to +ℤ size) -ℤ inner in
    let mark4 = interval_mark4 to outside size in
    not (ltb_ℤ from mark1 || ltb_ℤ mark2 from && ltb_ℤ from mark3 || ltb_ℤ mark4 from)

unfoldable pub test_snap : UiScreen → UiScreen → ℤ → ℤ → Bool
test_snap from to inner outside =
    let on_x = test_snap_to_on_axis from.pos_x to.pos_x inner outside true in
    let on_y = test_snap_to_on_axis from.pos_y to.pos_y inner outside false in
    if leb_ℤ inner (pos 0) || leb_ℤ outside (pos 0) then false else on_x || on_y

-- Can the screen snap to every other one? A screen alone cannot.
abbrev pub snaps_to_all : UiScreen → ℤ → ℕ → List UiScreen → Bool
snaps_to_all from index i [] = true
snaps_to_all from index i (s ∷ ss) =
    (eqb_ℤ (pos i) index || test_snap from s snapping_threshold int_max)
    && snaps_to_all from index (suc i) ss

unfoldable pub can_snap : UiScreen → ℤ → List UiScreen → Bool
can_snap from index ss = not (length ss == 1) && snaps_to_all from index 0 ss

-- The shift along an axis that puts a screen beside another one.
abbrev pub beside : ℤ → ℤ → ℤ → ℤ
beside from to size =
    if ltb_ℤ from to
    then (to -ℤ size) -ℤ from
    else (if ltb_ℤ to from then (to +ℤ size) -ℤ from else pos 0)

-- Of two shifts that are not 0, the smaller one is kept.
unfoldable pub smaller_shift : ℤ → ℤ → ℤ × ℤ
smaller_shift x y =
    if eqb_ℤ x (pos 0) || eqb_ℤ y (pos 0)
    then (x, y)
    else (if ltb (nat_abs x) (nat_abs y)
        then (x, pos 0)
        else (if ltb (nat_abs y) (nat_abs x) then (pos 0, y) else (x, y)))

unfoldable pub calculate_snapping : UiScreen → UiScreen → ℤ × ℤ
calculate_snapping from to =
    smaller_shift (beside from.pos_x to.pos_x (pos screen_icon_width))
      (beside from.pos_y to.pos_y (pos screen_icon_height))

abbrev pub adjustments : UiScreen → ℤ → ℕ → List UiScreen → List (ℤ × ℤ)
adjustments from index i [] = []
adjustments from index i (s ∷ ss) =
    let rest = adjustments from index (suc i) ss in
    if eqb_ℤ (pos i) index then rest else calculate_snapping from s ∷ rest

-- The smaller of two shifts, less a new one that is 0.
abbrev pub smaller : ℤ → ℤ → ℤ
smaller least a = if ltb (nat_abs a) (nat_abs least) && not (nat_abs a == 0) then a else least

abbrev pub least_shifts : ℤ × ℤ → List (ℤ × ℤ) → ℤ × ℤ
least_shifts least [] = least
least_shifts least (a ∷ rest) = least_shifts (smaller least.0 a.0, smaller least.1 a.1) rest

abbrev pub is_large : ℤ → Bool
is_large a = ltb_ℤ snapping_threshold (pos (nat_abs a))

abbrev pub or_none : ℤ → ℤ
or_none a = if eqb_ℤ a int_max then pos 0 else a

-- Only one axis is adjusted, unless both shifts are small or they are equal.
unfoldable pub one_axis : ℤ × ℤ → ℤ × ℤ
one_axis least =
    let large = is_large least.0 || is_large least.1 in
    let x = if large && ltb (nat_abs least.1) (nat_abs least.0) then pos 0 else least.0 in
    let y = if large && ltb (nat_abs least.0) (nat_abs least.1) then pos 0 else least.1 in
    (or_none x, or_none y)

unfoldable pub combine_adjustments : List (ℤ × ℤ) → ℤ × ℤ
combine_adjustments [] = (pos 0, pos 0)
combine_adjustments (a ∷ rest) = one_axis (least_shifts (int_max, int_max) (a ∷ rest))

unfoldable pub snap_to_others : UiScreen → ℤ → List UiScreen → List UiScreen
snap_to_others from index ss =
    let final = combine_adjustments (adjustments from index 0 ss) in
    move_model index final.0 final.1 ss
