-- ===== src/Arrangement/Bounding.antt =====
-- ScreenBBArrangement.cpp: what the bounding box is, and how it moves to the centre of the view.
use mathlib.Core.Path.{subst, sym}
use synergy_hogsback.Prelude.{
  ℕ, suc, true, false, ◌≡◌, if◌then◌else◌, List, [], ◌∷◌, All, arith, ◌⊎◌, if-cases, inl, inr,
}
use synergy_hogsback.Prelude.Int.{ℤ, pos, ◌<ℤ◌, ◌≤ℤ◌, ◌+ℤ◌, eqb_ℤ, +ℤ_parts}
use synergy_hogsback.Arrangement.Screens.{UiScreen}
use synergy_hogsback.Arrangement.Box.{
  int_max, int_min, Box, or_zero, grow, grow_all, no_box, clear_sentinels, recalculate_bounding_box,
}
use synergy_hogsback.Arrangement.Visible.{IsVisible, AreVisible}

-- The icon of the screen lies in the box.
abbrev pub Holds : Box → UiScreen → Type 0
Holds b s =
    (b.top_left_x ≤ℤ s.pos_x)
    × (b.top_left_y ≤ℤ s.pos_y)
    × (s.pos_x +ℤ pos 86 ≤ℤ b.bottom_right_x)
    × (s.pos_y +ℤ pos 58 ≤ℤ b.bottom_right_y)

-- The first box lies in the second.
abbrev pub Within : Box → Box → Type 0
Within a b =
    (b.top_left_x ≤ℤ a.top_left_x)
    × (b.top_left_y ≤ℤ a.top_left_y)
    × (a.bottom_right_x ≤ℤ b.bottom_right_x)
    × (a.bottom_right_y ≤ℤ b.bottom_right_y)

grow-Holds : (b : Box) (s : UiScreen) → Holds (grow b s) s
unfolding grow
grow-Holds b s = (ground arith, ground arith, ground arith, ground arith)

Within-grow : (b : Box) (s : UiScreen) → Within b (grow b s)
unfolding grow
Within-grow b s = (ground arith, ground arith, ground arith, ground arith)

grow-least : (b c : Box) (s : UiScreen) → Within b c → Holds c s → Within (grow b s) c
unfolding grow
grow-least b c s h k = (ground arith, ground arith, ground arith, ground arith)

Within-trans : (a b c : Box) → Within a b → Within b c → Within a c
Within-trans a b c h k = (ground arith, ground arith, ground arith, ground arith)

Within-Holds : (a b : Box) (s : UiScreen) → Within a b → Holds a s → Holds b s
Within-Holds a b s h k = (ground arith, ground arith, ground arith, ground arith)

-- The screens from index `i` on, without the one to ignore, satisfy the predicate.
unfoldable pub AllBut : (UiScreen → Type 0) → ℤ → ℕ → List UiScreen → Type 0
AllBut P ignore i [] = Unit
AllBut P ignore i (s ∷ ss) = (eqb_ℤ (pos i) ignore ≡ false → P s) × AllBut P ignore (suc i) ss

-- There is a screen besides the one to ignore.
unfoldable pub HasOther : ℤ → ℕ → List UiScreen → Type 0
HasOther ignore i [] = true ≡ false
HasOther ignore i (s ∷ ss) = (eqb_ℤ (pos i) ignore ≡ false) ⊎ HasOther ignore (suc i) ss

other :
    (P Q : UiScreen → Type 0) (ignore : ℤ) (i : ℕ) (ss : List UiScreen)
    → HasOther ignore i ss
    → AllBut P ignore i ss
    → All Q ss
    → (s : UiScreen) × P s × Q s
unfolding HasOther AllBut
other P Q ignore i [] o h k = ground arith
other P Q ignore i (s ∷ ss) (inl e) h k = (s, h.0 e, k.0)
other P Q ignore i (s ∷ ss) (inr o) h k = other P Q ignore (suc i) ss o h.1 k.1

AllBut-map :
    (P Q : UiScreen → Type 0) (ignore : ℤ) (i : ℕ) (ss : List UiScreen)
    → ((s : UiScreen) → P s → Q s)
    → AllBut P ignore i ss
    → AllBut Q ignore i ss
unfolding AllBut
AllBut-map P Q ignore i [] f h = tt
AllBut-map P Q ignore i (s ∷ ss) f h = (λ e. f s (h.0 e), AllBut-map P Q ignore (suc i) ss f h.1)

-- One turn of the loop takes the screen in, or leaves it out.
turn : ℤ → ℕ → UiScreen → Box → Box
turn ignore i s b = if eqb_ℤ (pos i) ignore then b else grow b s

Within-turn : (ignore : ℤ) (i : ℕ) (s : UiScreen) (b : Box) → Within b (turn ignore i s b)
unfolding turn
Within-turn ignore i s b =
    if-cases (Within b) (eqb_ℤ (pos i) ignore)
      (λ e. (ground arith, ground arith, ground arith, ground arith)) (λ e. Within-grow b s)

turn-Holds :
    (ignore : ℤ) (i : ℕ) (s : UiScreen) (b : Box)
    → eqb_ℤ (pos i) ignore ≡ false
    → Holds (turn ignore i s b) s
unfolding turn
turn-Holds ignore i s b e = rw e (grow-Holds b s)

turn_least :
    (ignore : ℤ) (i : ℕ) (s : UiScreen) (b c : Box)
    → Within b c
    → (eqb_ℤ (pos i) ignore ≡ false → Holds c s)
    → Within (turn ignore i s b) c
unfolding turn
turn_least ignore i s b c h k =
    if-cases (λ a. Within a c) (eqb_ℤ (pos i) ignore) (λ e. h) (λ e. grow-least b c s h (k e))

Within-grow_all :
    (ignore : ℤ) (i : ℕ) (ss : List UiScreen) (b : Box) → Within b (grow_all ignore i ss b)
unfolding grow_all turn
Within-grow_all ignore i [] b = (ground arith, ground arith, ground arith, ground arith)
Within-grow_all ignore i (s ∷ ss) b =
    Within-trans b (turn ignore i s b) _ (Within-turn ignore i s b)
      (Within-grow_all ignore (suc i) ss (turn ignore i s b))

grow_all-Holds :
    (ignore : ℤ) (i : ℕ) (ss : List UiScreen) (b : Box)
    → AllBut (Holds (grow_all ignore i ss b)) ignore i ss
unfolding grow_all turn AllBut
grow_all-Holds ignore i [] b = tt
grow_all-Holds ignore i (s ∷ ss) b = (
  λ e.
      Within-Holds _ _ s (Within-grow_all ignore (suc i) ss (turn ignore i s b))
        (turn-Holds ignore i s b e),
  grow_all-Holds ignore (suc i) ss (turn ignore i s b),
)

grow_all_least :
    (ignore : ℤ) (i : ℕ) (ss : List UiScreen) (b c : Box)
    → Within b c
    → AllBut (Holds c) ignore i ss
    → Within (grow_all ignore i ss b) c
unfolding grow_all turn AllBut
grow_all_least ignore i [] b c h k = h
grow_all_least ignore i (s ∷ ss) b c h k =
    grow_all_least ignore (suc i) ss (turn ignore i s b) c (turn_least ignore i s b c h k.0) k.1

below_max : (a : ℤ) → a <ℤ int_max → or_zero int_max a ≡ a
below_max a h = ground arith

above_min : (a : ℤ) → int_min <ℤ a → or_zero int_min a ≡ a
above_min a h = ground arith

clear_sentinels_keeps : (b : Box) (s : UiScreen) → Holds b s → IsVisible s → clear_sentinels b ≡ b
unfolding IsVisible
clear_sentinels_keeps b s h v =
    let x = +ℤ_parts s.pos_x (pos 86) in
    let y = +ℤ_parts s.pos_y (pos 58) in
    let left = below_max b.top_left_x (ground arith) in
    let top = below_max b.top_left_y (ground arith) in
    let right = above_min b.bottom_right_x (ground (arith, x)) in
    let bottom = above_min b.bottom_right_y (ground (arith, y)) in
    λ i. record {
      top_left_x = left i;
      top_left_y = top i;
      bottom_right_x = right i;
      bottom_right_y = bottom i;
    }

no_box_widest : (c : Box) (s : UiScreen) → Holds c s → IsVisible s → Within no_box c
unfolding IsVisible
no_box_widest c s h v =
    let x = +ℤ_parts s.pos_x (pos 86) in
    let y = +ℤ_parts s.pos_y (pos 58) in
    (ground (arith, x, y), ground (arith, x, y), ground (arith, x, y), ground (arith, x, y))

-- The box holds each screen that is not ignored, and lies in every box that does.
unfoldable pub IsLeastBox : ℤ → List UiScreen → Box → Type 0
IsLeastBox ignore ss b =
    AllBut (Holds b) ignore 0 ss × ((c : Box) → AllBut (Holds c) ignore 0 ss → Within b c)

-- If there are screens, all of them in the visible area, that are not ignored, the bounding box
-- that is computed holds each of them, and it lies in every box that does.
pub recalculate_bounding_box-IsLeastBox :
    (ignore : ℤ) (ss : List UiScreen)
    → AreVisible ss
    → HasOther ignore 0 ss
    → IsLeastBox ignore ss (recalculate_bounding_box ignore ss)
unfolding recalculate_bounding_box AreVisible IsLeastBox
recalculate_bounding_box-IsLeastBox ignore ss v o =
    let grown = grow_all ignore 0 ss no_box in
    let held = grow_all-Holds ignore 0 ss no_box in
    let one = other (Holds grown) IsVisible ignore 0 ss o held v in
    subst (IsLeastBox ignore ss) (sym (clear_sentinels_keeps grown one.0 one.1 one.2)) (
      held,
      λ c h.
          let two = other (Holds c) IsVisible ignore 0 ss o h v in
          grow_all_least ignore 0 ss no_box c (no_box_widest c two.0 two.1 two.2) h,
    )
