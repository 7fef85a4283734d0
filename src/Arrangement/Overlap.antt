-- ===== src/Arrangement/Overlap.antt =====
-- ScreenBBArrangement.cpp: when a screen can snap to another one.
use synergy_hogsback.Prelude.{
  ℕ, ◌+◌, ◌≤◌, Bool, true, false, not, ◌&&◌, ◌||◌, leb, ◌≡◌, if◌then◌else◌, arith, refl, ◌∙◌,
}
use synergy_hogsback.Prelude.Int.{
  ℤ, pos, negsuc, ◌≤ℤ◌, ltb_ℤ, ◌+ℤ◌, ◌-ℤ◌, +ℤ_parts, -ℤ_parts, nat_abs, parts_or,
}
use synergy_hogsback.Arrangement.Screens.{UiScreen}
use synergy_hogsback.Arrangement.Box.{int_max, int_min}
use synergy_hogsback.Arrangement.Visible.{IsVisible}
use synergy_hogsback.Arrangement.Snapping.{
  test_snap_to_on_axis, test_snap, snapping_threshold, interval_mark1, interval_mark4,
}

-- The number is near enough to 0 for sums with an icon to be no `int` overflow.
abbrev pub IsSmall : ℤ → Type 0
IsSmall a = (negsuc 9999 ≤ℤ a) × (a ≤ℤ pos 9999)

-- At most 7 pixels of an icon of that size overlap along the axis.
abbrev pub overlaps_little : ℤ → ℤ → ℕ → Bool
overlaps_little from to size = leb size (nat_abs (from -ℤ to) + 7)

module _ (from to : ℤ) (size : ℕ) (h : IsSmall from) (k : IsSmall to) where
  inner_marks :
      58 ≤ size
      → size ≤ 86
      → not (ltb_ℤ ((to +ℤ pos 7) -ℤ pos size) from && ltb_ℤ from ((to +ℤ pos size) -ℤ pos 7))
        ≡ overlaps_little from to size
  inner_marks low high = ground (
    arith,
    +ℤ_parts to (pos 7),
    -ℤ_parts (to +ℤ pos 7) (pos size),
    +ℤ_parts to (pos size),
    -ℤ_parts (to +ℤ pos size) (pos 7),
    -ℤ_parts from to,
    parts_or (from -ℤ to),
  )

  first_mark : size ≤ 86 → ltb_ℤ from (interval_mark1 to int_max (pos size)) ≡ false
  first_mark high =
      let start = int_min +ℤ int_max in
      let near = to -ℤ int_max in
      ground (
        arith,
        +ℤ_parts int_min int_max,
        +ℤ_parts start (pos size),
        -ℤ_parts to int_max,
        -ℤ_parts near (pos size),
      )

  last_mark : size ≤ 86 → ltb_ℤ (interval_mark4 to int_max (pos size)) from ≡ false
  last_mark high =
      let far = to +ℤ pos size in
      ground (arith, +ℤ_parts to (pos size), -ℤ_parts int_max int_max, +ℤ_parts far int_max)

  no_outer_marks :
      (inner : Bool)
      → size ≤ 86
      → not (
          ltb_ℤ from (interval_mark1 to int_max (pos size))
          || inner
          || ltb_ℤ (interval_mark4 to int_max (pos size)) from)
        ≡ not inner
  no_outer_marks inner high = rw (first_mark high, last_mark high) (or_false inner)
    where
      or_false : (b : Bool) → not (b || false) ≡ not b
      or_false true = refl
      or_false false = refl

on_axis :
    (from to : ℤ) (on_axis_x : Bool)
    → IsSmall from
    → IsSmall to
    → test_snap_to_on_axis from to (pos 7) int_max on_axis_x
      ≡ overlaps_little from to (if on_axis_x then 86 else 58)
unfolding test_snap_to_on_axis
on_axis from to true h k =
    no_outer_marks from to 86 h k _ (omega arith)
    ∙ inner_marks from to 86 h k (omega arith) (omega arith)
on_axis from to false h k =
    no_outer_marks from to 58 h k _ (omega arith)
    ∙ inner_marks from to 58 h k (omega arith) (omega arith)

IsVisible-IsSmall : (s : UiScreen) → IsVisible s → IsSmall s.pos_x × IsSmall s.pos_y
unfolding IsVisible
IsVisible-IsSmall s h =
    ((ground (arith, h), ground (arith, h)), (ground (arith, h), ground (arith, h)))

-- A visible screen can snap to another one exactly if their icons overlap by at most 7 pixels on one
-- of the axes; the outer marks, near the ends of the range of an `int`, play no part.
pub test_snap_lem :
    (s t : UiScreen)
    → IsVisible s
    → IsVisible t
    → test_snap s t snapping_threshold int_max
      ≡ (overlaps_little s.pos_x t.pos_x 86 || overlaps_little s.pos_y t.pos_y 58)
unfolding test_snap
test_snap_lem s t h k =
    let small_s = IsVisible-IsSmall s h in
    let small_t = IsVisible-IsSmall t k in
    rw
      (
        on_axis s.pos_x t.pos_x true small_s.0 small_t.0,
        on_axis s.pos_y t.pos_y false small_s.1 small_t.1,
      )
      refl
