-- ===== src/Arrangement/Visible.antt =====
-- ScreenListModel.cpp and ScreenBBArrangement.cpp: the screens stay in the visible area, whatever
-- is done to them.
use Prim.Native.String.{String}
use synergy_hogsback.Prelude.{
  ℕ, suc, zero, Bool, true, false, if◌then◌else◌, if-cases, ◌||◌, List, [], ◌∷◌, All, All-append,
  arith,
}
use synergy_hogsback.Prelude.Int.{ℤ, pos, negsuc, ◌<ℤ◌, leb_ℤ}
use synergy_hogsback.Profile.Config.{ScreenStatus}
use synergy_hogsback.Arrangement.Screens.{
  UiScreen, set_pos_x, set_pos_y, move_screen, modify, modify_at, move_model, adjust_all,
  new_screen, remove_at, update_one, update_screens, put_row, find_screen, add_screen_row,
  set_status, set_locked,
}
use synergy_hogsback.Arrangement.Box.{
  Box, place_beside, nearest_edge, calculate_new_pos, adjust_to_center,
}
use synergy_hogsback.Arrangement.Layout.{
  Layout, Floats, check_adjustment, update, add_screen, adjust_by_box, rescaled, centred,
  recalculated,
}

unfoldable pub IsVisible : UiScreen → Type 0
IsVisible s =
    (negsuc 85 <ℤ s.pos_x) × (s.pos_x <ℤ pos 600) × (negsuc 57 <ℤ s.pos_y) × (s.pos_y <ℤ pos 380)

unfoldable pub AreVisible : List UiScreen → Type 0
AreVisible ss = All IsVisible ss

pub set_pos_x-IsVisible : (x : ℤ) (s : UiScreen) → IsVisible s → IsVisible (set_pos_x x s)
unfolding set_pos_x IsVisible
set_pos_x-IsVisible x s h =
    if-cases IsVisible (leb_ℤ x (negsuc 85) || leb_ℤ (pos 600) x) (λ e. h)
      (λ e. (ground arith, ground arith, h.2, h.3))

pub set_pos_y-IsVisible : (y : ℤ) (s : UiScreen) → IsVisible s → IsVisible (set_pos_y y s)
unfolding set_pos_y IsVisible
set_pos_y-IsVisible y s h =
    if-cases IsVisible (leb_ℤ y (negsuc 57) || leb_ℤ (pos 380) y) (λ e. h)
      (λ e. (h.0, h.1, ground arith, ground arith))

put-IsVisible : (x y : ℤ) (s : UiScreen) → IsVisible s → IsVisible (set_pos_y y (set_pos_x x s))
put-IsVisible x y s h = set_pos_y-IsVisible y _ (set_pos_x-IsVisible x s h)

move_screen-IsVisible : (dx dy : ℤ) (s : UiScreen) → IsVisible s → IsVisible (move_screen dx dy s)
unfolding move_screen
move_screen-IsVisible dx dy s h = put-IsVisible _ _ s h

modify-AreVisible :
    (f : UiScreen → UiScreen) (i : ℕ) (ss : List UiScreen)
    → ((s : UiScreen) → IsVisible s → IsVisible (f s))
    → AreVisible ss
    → AreVisible (modify f i ss)
unfolding AreVisible
modify-AreVisible f i [] k h = tt
modify-AreVisible f zero (s ∷ ss) k h = (k s h.0, h.1)
modify-AreVisible f (suc i) (s ∷ ss) k h = (h.0, modify-AreVisible f i ss k h.1)

pub modify_at-AreVisible :
    (f : UiScreen → UiScreen) (i : ℤ) (ss : List UiScreen)
    → ((s : UiScreen) → IsVisible s → IsVisible (f s))
    → AreVisible ss
    → AreVisible (modify_at f i ss)
modify_at-AreVisible f (pos i) ss k h = modify-AreVisible f i ss k h
modify_at-AreVisible f (negsuc i) ss k h = h

pub move_model-AreVisible :
    (index dx dy : ℤ) (ss : List UiScreen) → AreVisible ss → AreVisible (move_model index dx dy ss)
unfolding move_model
move_model-AreVisible index dx dy ss h =
    modify_at-AreVisible (move_screen dx dy) index ss (move_screen-IsVisible dx dy) h

adjust_all-AreVisible :
    (dx dy : ℤ) (ss : List UiScreen) → AreVisible ss → AreVisible (adjust_all dx dy ss)
unfolding adjust_all AreVisible
adjust_all-AreVisible dx dy [] h = tt
adjust_all-AreVisible dx dy (s ∷ ss) h =
    (move_screen-IsVisible dx dy s h.0, adjust_all-AreVisible dx dy ss h.1)

add-AreVisible :
    (s : UiScreen) (ss : List UiScreen)
    → IsVisible s
    → AreVisible ss
    → AreVisible (add_screen_row s ss)
unfolding AreVisible
add-AreVisible s ss k h = All-append IsVisible ss (s ∷ []) h (k, tt)

pub remove_at-AreVisible :
    (i : ℕ) (ss : List UiScreen) → AreVisible ss → AreVisible (remove_at i ss)
unfolding AreVisible
remove_at-AreVisible i [] h = tt
remove_at-AreVisible zero (s ∷ ss) h = h.1
remove_at-AreVisible (suc i) (s ∷ ss) h = (h.0, remove_at-AreVisible i ss h.1)

put_row-AreVisible :
    (r : ℤ) (s : UiScreen) (ss : List UiScreen)
    → IsVisible s
    → AreVisible ss
    → AreVisible (put_row r s ss)
put_row-AreVisible (pos r) s ss k h = modify-AreVisible (λ old. s) r ss (λ t l. k) h
put_row-AreVisible (negsuc n) s ss k h = add-AreVisible s ss k h

update_one-AreVisible :
    (s : UiScreen) (ss : List UiScreen) → IsVisible s → AreVisible ss → AreVisible (update_one s ss)
unfolding update_one
update_one-AreVisible s ss k h = put_row-AreVisible (find_screen s.id ss) s ss k h

pub update_screens-AreVisible :
    (more ss : List UiScreen)
    → AreVisible more
    → AreVisible ss
    → AreVisible (update_screens more ss)
unfolding update_screens AreVisible
update_screens-AreVisible [] ss k h = h
update_screens-AreVisible (s ∷ more) ss k h =
    update_screens-AreVisible more (update_one s ss) k.1 (update_one-AreVisible s ss k.0 h)

if-IsVisible :
    (b : Bool) (s t : UiScreen) → IsVisible s → IsVisible t → IsVisible (if b then s else t)
if-IsVisible true s t h k = h
if-IsVisible false s t h k = k

place_beside-IsVisible :
    (b : Box) (x y : ℤ) (s : UiScreen) → IsVisible s → IsVisible (place_beside b x y s)
unfolding place_beside nearest_edge
place_beside-IsVisible b x y s h = search (if-IsVisible, put-IsVisible)

calculate_new_pos-IsVisible :
    (w v : ℤ) (b : Box) (local : String) (ss : List UiScreen) (s : UiScreen)
    → IsVisible s
    → IsVisible (calculate_new_pos w v b local ss s)
unfolding calculate_new_pos
calculate_new_pos-IsVisible w v b local ss s h =
    search (if-IsVisible, put-IsVisible, place_beside-IsVisible)

pub set_locked-IsVisible :
    (value : Bool) (s : UiScreen) → IsVisible s → IsVisible (set_locked value s)
unfolding IsVisible
set_locked-IsVisible value s h = h

pub set_status-IsVisible :
    (status : ScreenStatus) (s : UiScreen) → IsVisible s → IsVisible (set_status status s)
unfolding IsVisible
set_status-IsVisible status s h = h

pub new_screen-IsVisible : (name : String) → IsVisible (new_screen name)
unfolding IsVisible
new_screen-IsVisible name = (ground arith, ground arith, ground arith, ground arith)

module _ {F : Type 0} (fl : Floats F) where
  if-ShowsAll :
      (b : Bool) (l m : Layout F)
      → AreVisible l.screens
      → AreVisible m.screens
      → AreVisible (if b then l else m).screens
  if-ShowsAll true l m h k = h
  if-ShowsAll false l m h k = k

  centred-AreVisible : (l : Layout F) → AreVisible l.screens → AreVisible (centred fl l).screens
  unfolding adjust_to_center
  centred-AreVisible l h = adjust_all-AreVisible _ _ l.screens h

  pub check_adjustment-AreVisible :
      (force : Bool) (l : Layout F)
      → AreVisible l.screens
      → AreVisible (check_adjustment fl force l).screens
  unfolding check_adjustment
  check_adjustment-AreVisible force l h =
      if-ShowsAll _ _ l
        (if-ShowsAll _ (centred fl (rescaled fl l)) (rescaled fl l)
          (centred-AreVisible (rescaled fl l) h) h)
        h

  pub update-AreVisible : (l : Layout F) → AreVisible l.screens → AreVisible (update fl l).screens
  unfolding update
  update-AreVisible l h = check_adjustment-AreVisible false (recalculated fl (negsuc 0) l) h

  pub add_screen-AreVisible :
      (local : String) (s : UiScreen) (l : Layout F)
      → IsVisible s
      → AreVisible l.screens
      → AreVisible (add_screen fl local s l).screens
  unfolding add_screen
  add_screen-AreVisible local s l k h =
      update-AreVisible _ (add-AreVisible _ l.screens (calculate_new_pos-IsVisible _ _ _ _ _ s k) h)

  pub adjust_by_box-AreVisible :
      (local : String) (index : ℤ) (original : UiScreen) (l : Layout F)
      → AreVisible l.screens
      → AreVisible (adjust_by_box fl local index original l).screens
  unfolding adjust_by_box
  adjust_by_box-AreVisible local index original l h =
      update-AreVisible _ (move_model-AreVisible index _ _ l.screens h)
