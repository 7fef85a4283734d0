-- ===== src/Arrangement/Collisions.antt =====
-- ScreenBBArrangement.cpp: which screens collide, what lies next to a screen, and the places where
-- a screen is put beside others.
use mathlib.Core.Path.{sym}
use synergy_hogsback.Prelude.{
  Bool, true, false, ◌≡◌, if◌then◌else◌, arith, Bool-cases, inl, inr, ◌↔◌, ◌&&◌, ◌⊎◌,
}
use synergy_hogsback.Prelude.Int.{ℤ, pos, ◌<ℤ◌, ◌≤ℤ◌, ltb_ℤ, ◌+ℤ◌, ◌-ℤ◌, +ℤ_parts, -ℤ_parts, eqb_ℤ}
use synergy_hogsback.Arrangement.Screens.{UiScreen}
use synergy_hogsback.Arrangement.Box.{Rect, collide, icon, area_beside, Direction}
use synergy_hogsback.Arrangement.Snapping.{calculate_snapping, beside, smaller_shift}
use synergy_hogsback.Arrangement.Visible.{IsVisible}

-- The cell at these coordinates lies in the rectangle.
abbrev pub Contains : Rect → ℤ → ℤ → Type 0
Contains r x y = (r.left ≤ℤ x) × (x <ℤ r.left +ℤ r.width) × (r.top ≤ℤ y) × (y <ℤ r.top +ℤ r.height)

abbrev larger : ℤ → ℤ → ℤ
larger a b = if ltb_ℤ a b then b else a

-- Two rectangles with an area collide exactly if they have a cell in common.
pub collide_iff :
    (r q : Rect)
    → pos 0 <ℤ r.width
    → pos 0 <ℤ r.height
    → pos 0 <ℤ q.width
    → pos 0 <ℤ q.height
    → (collide r q ≡ true) ↔ ((x : ℤ) × (y : ℤ) × Contains r x y × Contains q x y)
unfolding collide
collide_iff r q rw_ rh qw qh =
    let a = +ℤ_parts r.left r.width in
    let b = +ℤ_parts r.top r.height in
    let c = +ℤ_parts q.left q.width in
    let d = +ℤ_parts q.top q.height in
    (
      λ h. (
        larger r.left q.left,
        larger r.top q.top,
        (ground (arith, a, c), ground (arith, a, c), ground (arith, b, d), ground (arith, b, d)),
        (ground (arith, a, c), ground (arith, a, c), ground (arith, b, d), ground (arith, b, d)),
      ),
      λ w. let h = w.2 in let k = w.3 in ground (arith, a, b, c, d),
    )

-- The screen is in the view, at least in part.
abbrev pub InRange : ℤ → ℤ → UiScreen → Type 0
InRange w v s = IsVisible s × (s.pos_x <ℤ w) × (s.pos_y <ℤ v)

abbrev pub opposite : Direction → Direction
opposite Direction.left = Direction.right
opposite Direction.right = Direction.left
opposite Direction.up = Direction.down
opposite Direction.down = Direction.up

-- Is the second screen next to the first on that side?
abbrev pub lies_next_to : ℤ → ℤ → UiScreen → Direction → UiScreen → Bool
lies_next_to w v s dir t = collide (area_beside w v dir s) (icon t)

left_and_right :
    (w v : ℤ) (s t : UiScreen)
    → InRange w v s
    → InRange w v t
    → lies_next_to w v s Direction.left t ≡ lies_next_to w v t Direction.right s
unfolding area_beside collide IsVisible
left_and_right w v s t h k =
    let start = t.pos_x +ℤ pos 86 in
    ground (
      arith,
      h,
      k,
      +ℤ_parts t.pos_x (pos 86),
      +ℤ_parts s.pos_x (pos 86),
      +ℤ_parts (pos 0) s.pos_x,
      -ℤ_parts w start,
      +ℤ_parts start (w -ℤ start),
    )

up_and_down :
    (w v : ℤ) (s t : UiScreen)
    → InRange w v s
    → InRange w v t
    → lies_next_to w v s Direction.up t ≡ lies_next_to w v t Direction.down s
unfolding area_beside collide IsVisible
up_and_down w v s t h k =
    let start = t.pos_y +ℤ pos 58 in
    ground (
      arith,
      h,
      k,
      +ℤ_parts t.pos_y (pos 58),
      +ℤ_parts s.pos_y (pos 58),
      +ℤ_parts (pos 0) s.pos_y,
      -ℤ_parts v start,
      +ℤ_parts start (v -ℤ start),
    )

pub next_to_sides :
    (w v : ℤ) (s t : UiScreen) (dir : Direction)
    → InRange w v s
    → InRange w v t
    → lies_next_to w v s dir t ≡ lies_next_to w v t (opposite dir) s
next_to_sides w v s t Direction.left h k = left_and_right w v s t h k
next_to_sides w v s t Direction.right h k = sym (left_and_right w v t s k h)
next_to_sides w v s t Direction.up h k = up_and_down w v s t h k
next_to_sides w v s t Direction.down h k = sym (up_and_down w v t s k h)

abbrev pub shifted : ℤ × ℤ → UiScreen → UiScreen
shifted by s = record s { pos_x = s.pos_x +ℤ by.0; pos_y = s.pos_y +ℤ by.1 }

-- Along an axis, the screens are apart.
abbrev Apart : ℤ → ℤ → ℤ → Type 0
Apart a b size = (a +ℤ size ≤ℤ b) ⊎ (b +ℤ size ≤ℤ a)

beside-Apart :
    (from to size : ℤ)
    → pos 0 <ℤ size
    → eqb_ℤ from to ≡ false
    → Apart (from +ℤ beside from to size) to size
beside-Apart from to size h e =
    let below = (to -ℤ size) -ℤ from in
    let above = (to +ℤ size) -ℤ from in
    elim (Bool-cases (ltb_ℤ from to)) [
      | inl less ↦ rw less (
          inl (
            ground (
              arith,
              +ℤ_parts from below,
              +ℤ_parts (from +ℤ below) size,
              -ℤ_parts (to -ℤ size) from,
              -ℤ_parts to size,
            )))
      | inr not_less ↦
          let more : ltb_ℤ to from ≡ true = ground (arith, not_less, e) in
          rw (not_less, more)
            (inr
              (ground (arith, +ℤ_parts from above, -ℤ_parts (to +ℤ size) from, +ℤ_parts to size)))
    ]

beside_same : (from to size : ℤ) → eqb_ℤ from to ≡ true → beside from to size ≡ pos 0
beside_same from to size e = ground arith

smaller_shift_keeps :
    (x y : ℤ)
    → ((smaller_shift x y).0 ≡ x) ⊎ (((smaller_shift x y).1 ≡ y) × (eqb_ℤ y (pos 0) ≡ false))
unfolding smaller_shift
smaller_shift_keeps x y = ground arith

smaller_shift_second : (x y : ℤ) → x ≡ pos 0 → (smaller_shift x y).1 ≡ y
unfolding smaller_shift
smaller_shift_second x y e = ground arith

pub sideways_clear :
    (s t : UiScreen) → Apart s.pos_x t.pos_x (pos 86) → collide (icon s) (icon t) ≡ false
unfolding collide
sideways_clear s t h = ground (arith, h, +ℤ_parts s.pos_x (pos 86), +ℤ_parts t.pos_x (pos 86))

pub upright_clear :
    (s t : UiScreen) → Apart s.pos_y t.pos_y (pos 58) → collide (icon s) (icon t) ≡ false
unfolding collide
upright_clear s t h = ground (arith, h, +ℤ_parts s.pos_y (pos 58), +ℤ_parts t.pos_y (pos 58))

on_x :
    (s t : UiScreen)
    → eqb_ℤ s.pos_x t.pos_x ≡ false
    → (calculate_snapping s t).0 ≡ beside s.pos_x t.pos_x (pos 86)
    → collide (icon (shifted (calculate_snapping s t) s)) (icon t) ≡ false
on_x s t d e =
    sideways_clear (shifted (calculate_snapping s t) s) t
      (rw e (beside-Apart s.pos_x t.pos_x (pos 86) (ground arith) d))

on_y :
    (s t : UiScreen)
    → eqb_ℤ s.pos_y t.pos_y ≡ false
    → (calculate_snapping s t).1 ≡ beside s.pos_y t.pos_y (pos 58)
    → collide (icon (shifted (calculate_snapping s t) s)) (icon t) ≡ false
on_y s t d e =
    upright_clear (shifted (calculate_snapping s t) s) t
      (rw e (beside-Apart s.pos_y t.pos_y (pos 58) (ground arith) d))

-- Unless the two screens stand at the same place, they do not collide once the first is moved by the
-- adjustment that calculateSnapping answers.
pub calculate_snapping_parts :
    (s t : UiScreen)
    → (eqb_ℤ s.pos_x t.pos_x && eqb_ℤ s.pos_y t.pos_y) ≡ false
    → collide (icon (shifted (calculate_snapping s t) s)) (icon t) ≡ false
unfolding calculate_snapping
calculate_snapping_parts s t h =
    let x = beside s.pos_x t.pos_x (pos 86) in
    let y = beside s.pos_y t.pos_y (pos 58) in
    elim (Bool-cases (eqb_ℤ s.pos_x t.pos_x)) [
      | inl same ↦
          let second = smaller_shift_second x y (beside_same s.pos_x t.pos_x (pos 86) same) in
          on_y s t (ground (arith, same, h)) second
      | inr differ ↦ elim (smaller_shift_keeps x y) [
        | inl first ↦ on_x s t differ first
        | inr second ↦
            on_y s t (ground (arith, second.1, beside_same s.pos_y t.pos_y (pos 58))) second.0
      ]
    ]
