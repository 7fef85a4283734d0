-- ===== src/Arrangement/History.antt =====
-- ScreenListModel.cpp and ScreenBBArrangement.cpp: any operation on the arrangement, and any number
-- of them in any order.
use Prim.Native.String.{String}
use synergy_hogsback.Prelude.{
  ℕ, Bool, true, false, ◌≡◌, refl, if◌then◌else◌, Option-cases, inl, inr, List, [], ◌∷◌, Option,
  none, some, arith, ◌>>=◌,
}
use synergy_hogsback.Prelude.Int.{ℤ, pos, negsuc}
use synergy_hogsback.Profile.Config.{ScreenStatus}
use synergy_hogsback.Arrangement.Screens.{
  UiScreen, get_screen, move_model, move_screen, find_screen, remove_screen_row, remove_row,
  update_screens, set_screen_status, set_status, set_locked, write_at, modify, modify_at,
}
use synergy_hogsback.Arrangement.Box.{collide_with_others, meeting, icon}
use synergy_hogsback.Arrangement.Snapping.{snap_to_others, combine_adjustments, adjustments}
use synergy_hogsback.Arrangement.Layout.{
  Layout, Floats, check_adjustment, update, add_screen, remove_screen, adjust_by_box,
  adjust_after_snap, adjust_model,
}
use synergy_hogsback.Arrangement.Visible.{
  IsVisible, AreVisible, add_screen-AreVisible, adjust_by_box-AreVisible, update-AreVisible,
  check_adjustment-AreVisible, update_screens-AreVisible, remove_at-AreVisible,
  modify_at-AreVisible, set_locked-IsVisible, set_status-IsVisible, move_model-AreVisible,
}

-- The operations, with what the user or the cloud gives them.
pub data Operation : Type 0 where
  add : UiScreen → Operation
  remove : ℤ → Operation
  drag : ℤ → ℤ → ℤ → Operation
  drop : ℤ → Operation
  refresh : Operation
  check : Bool → Operation
  load : List UiScreen → Operation
  tell_status : ℤ → ScreenStatus → Operation
  lock : ℤ → Bool → Operation

-- Does the operation name a screen that the list does not have?
unfoldable pub Misses : Operation → List UiScreen → Type 0
Misses (remove id) ss = (n : ℕ) × (find_screen id ss ≡ negsuc n)
Misses (drop index) ss = get_screen ss index ≡ none
Misses (tell_status index status) ss = get_screen ss index ≡ none
Misses op ss = true ≡ false

-- The screens that come from outside are in the visible area.
unfoldable pub BringsVisible : Operation → Type 0
BringsVisible (add s) = IsVisible s
BringsVisible (load more) = AreVisible more
BringsVisible op = Unit

abbrev pub with_screens : {F : Type 0} → Layout F → List UiScreen → Layout F
with_screens l ss = record l { screens = ss }

abbrev pub layout_of : {F : Type 0} → Layout F → Option (List UiScreen) → Option (Layout F)
layout_of l none = none
layout_of l (some ss) = some (with_screens l ss)

module _ {F : Type 0} (fl : Floats F) (local : String) where
  unfoldable pub perform : Operation → Layout F → Option (Layout F)
  perform (add s) l = some (add_screen fl local s l)
  perform (remove id) l = remove_screen fl id l
  perform (drag index dx dy) l = some (with_screens l (move_model index dx dy l.screens))
  perform (drop index) l = adjust_model fl local index l
  perform refresh l = some (update fl l)
  perform (check force) l = some (check_adjustment fl force l)
  perform (load more) l = some (with_screens l (update_screens more l.screens))
  perform (tell_status index status) l = layout_of l (set_screen_status index status l.screens)
  perform (lock index value) l =
      some (with_screens l (modify_at (set_locked value) index l.screens))

  -- An operation answers and leaves all screens visible, or it is given a screen that is missing.
  unfoldable pub Outcome : Operation → List UiScreen → Option (Layout F) → Type 0
  Outcome op ss none = Misses op ss
  Outcome op ss (some l) = AreVisible l.screens

  -- What an operation that finds its screens leaves.
  abbrev ShowsAll : Option (Layout F) → Type 0
  ShowsAll none = true ≡ false
  ShowsAll (some l) = AreVisible l.screens

  modify_finds :
      (f : UiScreen → UiScreen) (i : ℤ) (ss : List UiScreen) (s : UiScreen)
      → get_screen ss i ≡ some s
      → get_screen (modify_at f i ss) i ≡ some (f s)
  modify_finds f (pos i) ss s h = go i ss h
    where
      go :
          (i : ℕ) (ss : List UiScreen)
          → get_screen ss (pos i) ≡ some s
          → get_screen (modify f i ss) (pos i) ≡ some (f s)
      go i [] h = ground arith
      go Prim.Native.Nat.zero (t ∷ ss) h = ground arith
      go (Prim.Native.Nat.suc i) (t ∷ ss) h = go i ss h
  modify_finds f (negsuc n) ss s h = ground arith

  if-ShowsAll :
      (b : Bool) (l m : Option (Layout F)) → ShowsAll l → ShowsAll m → ShowsAll (if b then l else m)
  if-ShowsAll true l m h k = h
  if-ShowsAll false l m h k = k

  if-ShowsAll-some :
      (b : Bool) (l m : Layout F)
      → AreVisible l.screens
      → AreVisible m.screens
      → ShowsAll (some (if b then l else m))
  if-ShowsAll-some true l m h k = h
  if-ShowsAll-some false l m h k = k

  bind-ShowsAll :
      {A : Type 0} (o : Option A) (f : A → Option (Layout F)) (a : A)
      → o ≡ some a
      → ShowsAll (f a)
      → ShowsAll (o >>= f)
  bind-ShowsAll none f a e h = ground arith
  bind-ShowsAll (some b) f a e h = ground arith

  pub move_finds :
      (i dx dy : ℤ) (ss : List UiScreen) (s : UiScreen)
      → get_screen ss i ≡ some s
      → get_screen (move_model i dx dy ss) i ≡ some (move_screen dx dy s)
  unfolding move_model
  move_finds i dx dy ss s h = modify_finds (move_screen dx dy) i ss s h

  collides_finds :
      (i : ℤ) (ss : List UiScreen) (s : UiScreen)
      → get_screen ss i ≡ some s
      → collide_with_others i ss ≡ some (meeting i (icon s) 0 ss)
  unfolding collide_with_others
  collides_finds i ss s h = rw (collide_with_others, h) refl

  adjust_after_snap-ShowsAll :
      (index : ℤ) (s : UiScreen) (l : Layout F)
      → get_screen l.screens index ≡ some s
      → AreVisible l.screens
      → ShowsAll (adjust_after_snap fl local index s l)
  unfolding adjust_after_snap snap_to_others
  adjust_after_snap-ShowsAll index s l e h =
      let final = combine_adjustments (adjustments s index 0 l.screens) in
      let snapped = move_model index final.0 final.1 l.screens in
      let found = move_finds index final.0 final.1 l.screens s e in
      let shown = move_model-AreVisible index final.0 final.1 l.screens h in
      bind-ShowsAll _ _ _ found (
        bind-ShowsAll _ _ _ (collides_finds index snapped _ found) (
          bind-ShowsAll _ _ _ (move_finds index _ _ snapped _ found) (
            if-ShowsAll-some _ _ _ (update-AreVisible fl _ shown) (
              adjust_by_box-AreVisible fl local index _ _
                (move_model-AreVisible index _ _ snapped shown)))))

  adjust_model-ShowsAll :
      (index : ℤ) (s : UiScreen) (l : Layout F)
      → get_screen l.screens index ≡ some s
      → AreVisible l.screens
      → ShowsAll (adjust_model fl local index l)
  unfolding adjust_model
  adjust_model-ShowsAll index s l e h = bind-ShowsAll _ _ s e (
      if-ShowsAll _ _ (some (adjust_by_box fl local index s l))
        (adjust_after_snap-ShowsAll index s l e h) (adjust_by_box-AreVisible fl local index s l h))

  pub adjust_model-none :
      (index : ℤ) (l : Layout F)
      → get_screen l.screens index ≡ none
      → adjust_model fl local index l ≡ none
  unfolding adjust_model
  adjust_model-none index l e = rw e refl

  found-Outcome :
      (index : ℤ) (l : Layout F) (op : Operation) (result : Option (Layout F))
      → (get_screen l.screens index ≡ none → result ≡ none)
      → (get_screen l.screens index ≡ none → Misses op l.screens)
      → ((s : UiScreen) → get_screen l.screens index ≡ some s → ShowsAll result)
      → Outcome op l.screens result
  unfolding Outcome
  found-Outcome index l op none e k h = elim (Option-cases (get_screen l.screens index)) [
    | inl gone ↦ k gone
    | inr found ↦ ground (arith, h found.0 found.1)
  ]
  found-Outcome index l op (some m) e k h = elim (Option-cases (get_screen l.screens index)) [
    | inl gone ↦ ground (arith, e gone)
    | inr found ↦ h found.0 found.1
  ]

  remove-Outcome :
      (id : ℤ) (l : Layout F)
      → AreVisible l.screens
      → Outcome (remove id) l.screens (remove_screen fl id l)
  unfolding Outcome remove_screen remove_screen_row Misses
  remove-Outcome id l h = go (find_screen id l.screens) refl
    where
      go :
          (r : ℤ)
          → find_screen id l.screens ≡ r
          → Outcome (remove id) l.screens (elim (remove_row r l.screens) [
            | none ↦ none
            | some rest ↦ some (update fl (record l { screens = rest }))
          ])
      go (pos i) e = update-AreVisible fl _ (remove_at-AreVisible i l.screens h)
      go (negsuc n) e = (n, e)

  if-Outcome :
      (op : Operation) (l : Layout F) (b : Bool) (some_screens other : Option (List UiScreen))
      → Outcome op l.screens (layout_of l some_screens)
      → Outcome op l.screens (layout_of l other)
      → Outcome op l.screens (layout_of l (if b then some_screens else other))
  if-Outcome op l true x y h k = h
  if-Outcome op l false x y h k = k

  write-Outcome :
      (index : ℤ) (status : ScreenStatus) (l : Layout F)
      → AreVisible l.screens
      → Outcome
          (tell_status index status)
          l.screens
          (layout_of l (set_screen_status index status l.screens))
  unfolding Outcome set_screen_status Misses
  write-Outcome index status l h =
      if-Outcome (tell_status index status) l _ (some l.screens)
        (write_at (set_status status) index l.screens) h (go (get_screen l.screens index) refl)
    where
      go :
          (r : Option UiScreen)
          → get_screen l.screens index ≡ r
          → Outcome (tell_status index status) l.screens (
              layout_of l (elim r [
                | none ↦ none
                | some s ↦ some (modify_at (set_status status) index l.screens)
              ]))
      go none e = e
      go (some s) e = modify_at-AreVisible _ index l.screens (set_status-IsVisible status) h

  -- Every operation answers and leaves all screens visible, or names a screen that is missing.
  pub perform-Outcome :
      (op : Operation) (l : Layout F)
      → BringsVisible op
      → AreVisible l.screens
      → Outcome op l.screens (perform op l)
  unfolding Outcome perform BringsVisible Misses
  perform-Outcome (add s) l k h = add_screen-AreVisible fl local s l k h
  perform-Outcome (remove id) l k h = remove-Outcome id l h
  perform-Outcome (drag index dx dy) l k h = move_model-AreVisible index dx dy l.screens h
  perform-Outcome (drop index) l k h =
      found-Outcome index l (drop index) _ (adjust_model-none index l) (λ gone. gone)
        (λ s e. adjust_model-ShowsAll index s l e h)
  perform-Outcome refresh l k h = update-AreVisible fl l h
  perform-Outcome (check force) l k h = check_adjustment-AreVisible fl force l h
  perform-Outcome (load more) l k h = update_screens-AreVisible more l.screens k h
  perform-Outcome (tell_status index status) l k h = write-Outcome index status l h
  perform-Outcome (lock index value) l k h =
      modify_at-AreVisible (set_locked value) index l.screens (set_locked-IsVisible value) h
