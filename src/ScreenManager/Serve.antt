-- ===== src/ScreenManager/Serve.antt =====
-- ScreenManager.cpp: every request.
use mathlib.Core.Path.{subst, sym}
use synergy_hogsback.Prelude.{
  ◌>>=◌, true, false, ◌&&◌, ◌||◌, ◌≡◌, ◌∙◌, Option, none, some, arith, Option-cases, inl, inr,
  if-cases, List, any, refl,
}
use synergy_hogsback.Prelude.Text.{eqb_String}
use synergy_hogsback.Prelude.Int.{ℤ, pos, negsuc, ◌≤ℤ◌, eqb_ℤ, ltb_ℤ, leb_ℤ}
use synergy_hogsback.Arrangement.Screens.{UiScreen, new_screen, get_screen, move_model}
use synergy_hogsback.Arrangement.Layout.{Floats, Layout, add_screen}
use synergy_hogsback.Arrangement.Visible.{
  AreVisible, new_screen-IsVisible, move_model-AreVisible, add_screen-AreVisible,
  check_adjustment-AreVisible,
}
use synergy_hogsback.Arrangement.History.{adjust_model-none, move_finds}
use synergy_hogsback.ScreenManager.State.{
  Snapshot, Settings, ScreenManager, Request, drag, add_name, view_width, view_height, claim,
  remove_id, remove_name, received_screens, serve, with_layout, on_update_profile_config,
  move_screen_model, add_named, set_view_width, set_view_height, server_claim,
  remove_screen_by_name, take_snapshot, on_screens, server_claimed, tell, latest, finish,
  misses_local, id_set,
}
use synergy_hogsback.ScreenManager.Answers.{
  same-IsCounted, IsGood, Answers, if-IsGood, bind-Answers, then-Answers, is_unknown, Takes,
  latest-Takes,
}
use synergy_hogsback.ScreenManager.Removal.{
  update_profile-IsGood, adjusts, removes_found, removes_id,
}
use synergy_hogsback.ScreenManager.Take.{begun, takes_snapshot, loses_snapshot, finishes}

module _ {F : Type 0} (fl : Floats F) (app : Settings) where
  -- The answer to a snapshot, if the name of a status that is read is not known.
  abbrev Hears : Option Snapshot → ScreenManager F → Option (ScreenManager F) → Type 0
  Hears none m o = Answers m.config_version o
  Hears (some snap) m none = any is_unknown snap.screens ≡ true
  Hears (some snap) m (some n) = IsGood m.config_version n

  Answers-Hears :
      (snap : Option Snapshot) (m : ScreenManager F) (o : Option (ScreenManager F))
      → Answers m.config_version o
      → Hears snap m o
  Answers-Hears none m o h = h
  Answers-Hears (some snap) m none h = ground (arith, h)
  Answers-Hears (some snap) m (some n) h = h

  snapshot_answered :
      (snap : Option Snapshot) (m : ScreenManager F)
      → AreVisible m.layout.screens
      → Hears snap m (on_screens fl app snap m)
  unfolding on_screens AreVisible Takes
  snapshot_answered none m h = finishes fl app m.config_version false m (h, same-IsCounted m)
  snapshot_answered (some snap) m h =
      if-cases (Hears (some snap) m) (ltb_ℤ snap.config_version m.config_version)
        (λ e. (h, same-IsCounted m))
        (λ e.
          read (ground (arith, e)) (latest (begun fl app snap m).layout.screens snap.screens) refl
            (latest-Takes (begun fl app snap m).layout.screens snap.screens))
    where
      read :
          m.config_version ≤ℤ snap.config_version
          → (o : Option (List UiScreen))
          → latest (begun fl app snap m).layout.screens snap.screens ≡ o
          → Takes snap.screens o
          → Hears (some snap) m (
              take_snapshot fl app snap m
              >>= finish fl app (misses_local fl app (id_set snap.screens) m))
      read newer none e unknown =
          subst
            (λ (o : Option (ScreenManager F)).
              Hears (some snap) m
                (o >>= finish fl app (misses_local fl app (id_set snap.screens) m)))
            (sym (loses_snapshot fl app snap m e)) unknown
      read newer (some screens) e shown = Answers-Hears (some snap) m _ (
          then-Answers m.config_version (take_snapshot fl app snap m) _
            (takes_snapshot fl app m.config_version snap m screens e shown h newer)
            (λ n k. finishes fl app m.config_version _ n k))

  -- Does the request name an index that the list does not have, or bring the name of a status that
  -- is not known?
  pub Misnames : Request → ScreenManager F → Type 0
  Misnames (drag index dx dy) m = get_screen m.layout.screens index ≡ none
  Misnames (claim index) m = get_screen m.layout.screens index ≡ none
  Misnames (received_screens (some snap)) m = any is_unknown snap.screens ≡ true
  Misnames request m = true ≡ false

  -- The request is answered with all screens visible and a version that is no smaller, if it never
  -- overflowed; or it names an index or a status that there is not.
  pub IsServed : Request → ScreenManager F → Option (ScreenManager F) → Type 0
  IsServed request m none = Misnames request m
  IsServed request m (some n) = IsGood m.config_version n

  Answers-IsServed :
      (request : Request) (m : ScreenManager F) (o : Option (ScreenManager F))
      → Answers m.config_version o
      → IsServed request m o
  unfolding IsServed
  Answers-IsServed request m none h = ground (arith, h)
  Answers-IsServed request m (some n) h = h

  Hears-IsServed :
      (snap : Option Snapshot) (m : ScreenManager F) (o : Option (ScreenManager F))
      → Hears snap m o
      → IsServed (received_screens snap) m o
  unfolding IsServed Misnames
  Hears-IsServed none m none h = h
  Hears-IsServed none m (some n) h = h
  Hears-IsServed (some snap) m none h = h
  Hears-IsServed (some snap) m (some n) h = h

  drag-IsServed :
      (index dx dy : ℤ) (m : ScreenManager F)
      → AreVisible m.layout.screens
      → IsServed (drag index dx dy) m (move_screen_model fl app index dx dy m)
  unfolding move_screen_model IsServed Misnames
  drag-IsServed index dx dy m h =
      let moved : Layout F = record (m.layout) {
        screens = move_model index dx dy m.layout.screens;
      } in
      let shown = move_model-AreVisible index dx dy m.layout.screens h in
      if-cases (IsServed (drag index dx dy) m)
        (eqb_ℤ dx (pos 0) && eqb_ℤ dy (pos 0) || eqb_ℤ index (negsuc 0))
        (λ e. (h, same-IsCounted m))
        (λ e. elim (adjusts fl app index moved shown) [
          | inl lost ↦
              subst
                (λ (o : Option (Layout F)).
                  IsServed (drag index dx dy) m
                    (o >>= λ l. some (on_update_profile_config fl app (with_layout l m))))
                (sym (adjust_model-none fl app.host index moved lost)) (still_lost lost)
          | inr done ↦ Answers-IsServed (drag index dx dy) m _ (
              bind-Answers m.config_version _ _ done.0 done.1 (
                update_profile-IsGood fl app m.config_version (with_layout done.0 m)
                  (done.2, same-IsCounted m)))
        ])
    where
      still_lost :
          get_screen (move_model index dx dy m.layout.screens) index ≡ none
          → get_screen m.layout.screens index ≡ none
      still_lost lost = elim (Option-cases (get_screen m.layout.screens index)) [
        | inl gone ↦ gone
        | inr found ↦
            ground (
              arith,
              sym lost ∙ move_finds fl app.host index dx dy m.layout.screens found.0 found.1,
            )
      ]

  claim-IsServed :
      (index : ℤ) (m : ScreenManager F)
      → AreVisible m.layout.screens
      → IsServed (claim index) m (server_claim fl app index m)
  unfolding server_claim IsServed Misnames
  claim-IsServed index m h = elim (Option-cases (get_screen m.layout.screens index)) [
    | inl gone ↦
        subst
          (λ (o : Option UiScreen).
            IsServed (claim index) m (o >>= λ s. some (tell (server_claimed s.id) m)))
          (sym gone) gone
    | inr found ↦
        subst
          (λ (o : Option UiScreen).
            IsServed (claim index) m (o >>= λ s. some (tell (server_claimed s.id) m)))
          (sym found.1) (h, same-IsCounted m)
  ]

  -- If all screens are visible, each request is answered, with all screens visible and a version that
  -- is no smaller unless it has overflowed; or it names an index that the list does not have, or brings
  -- a snapshot in which a screen has a status of no known name.
  pub serve-IsServed :
      (request : Request) (m : ScreenManager F)
      → AreVisible m.layout.screens
      → IsServed request m (serve fl app request m)
  unfolding serve IsServed add_named set_view_width set_view_height remove_screen_by_name
  serve-IsServed (drag index dx dy) m h = drag-IsServed index dx dy m h
  serve-IsServed (add_name name) m h =
      if-IsGood m.config_version _
        (with_layout (add_screen fl app.host (new_screen name) m.layout) m) m
        (
          add_screen-AreVisible fl app.host (new_screen name) m.layout (new_screen-IsVisible name)
              h,
          same-IsCounted m,
        )
        (h, same-IsCounted m)
  serve-IsServed (view_width w) m h =
      if-IsGood m.config_version (leb_ℤ w (pos 0)) m _ (h, same-IsCounted m)
        (
          check_adjustment-AreVisible fl true (record (m.layout) { original_view_w = w }) h,
          same-IsCounted m,
        )
  serve-IsServed (view_height v) m h =
      if-IsGood m.config_version (leb_ℤ v (pos 0)) m _ (h, same-IsCounted m)
        (
          check_adjustment-AreVisible fl true (record (m.layout) { original_view_h = v }) h,
          same-IsCounted m,
        )
  serve-IsServed (claim index) m h = claim-IsServed index m h
  serve-IsServed (remove_id d notify) m h =
      Answers-IsServed (remove_id d notify) m _
        (removes_id fl app m.config_version d notify m (h, same-IsCounted m))
  serve-IsServed (remove_name name notify) m h = Answers-IsServed (remove_name name notify) m _ (
      removes_found fl app m.config_version (λ s. eqb_String s.name name) notify m
        (h, same-IsCounted m))
  serve-IsServed (received_screens snap) m h = Hears-IsServed snap m _ (snapshot_answered snap m h)
