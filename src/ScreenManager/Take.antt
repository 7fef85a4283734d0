-- ===== src/ScreenManager/Take.antt =====
-- ScreenManager.cpp: taking a snapshot over.
use synergy_hogsback.Prelude.{Bool, false, ◌≡◌, arith, List, refl, none, some, inl}
use synergy_hogsback.Prelude.Int.{ℤ, negsuc, ◌≤ℤ◌, eqb_ℤ}
use synergy_hogsback.Arrangement.Screens.{UiScreen, new_screen}
use synergy_hogsback.Arrangement.Layout.{Floats, add_screen}
use synergy_hogsback.Arrangement.Visible.{
  IsVisible, AreVisible, add_screen-AreVisible, update_screens-AreVisible,
}
use synergy_hogsback.ScreenManager.State.{
  Snapshot, Settings, ScreenManager, with_layout, on_update_profile_config, remove_screen_by_id,
  take_server, latest, take_snapshot, finish,
}
use synergy_hogsback.ScreenManager.Answers.{IsGood, Answers, if-IsGood, bind-Answers, then-Answers}
use synergy_hogsback.ScreenManager.Removal.{update_profile-IsGood, removes_id, removes_unsubscribed}

module _ {F : Type 0} (fl : Floats F) (app : Settings) where
  pub own-IsVisible : IsVisible (record (new_screen app.host) { id = app.screen_id })
  unfolding IsVisible
  own-IsVisible = (ground arith, ground arith, ground arith, ground arith)

  pub takes_server :
      (v server : ℤ) (m : ScreenManager F) → IsGood v m → IsGood v (take_server fl app server m)
  takes_server v server m h = if-IsGood v (eqb_ℤ m.server_id server) m _ h (h.0, h.1)

  -- The manager with the version and the server of a snapshot.
  abbrev pub begun : Snapshot → ScreenManager F → ScreenManager F
  begun snap m = take_server fl app snap.server (record m { config_version = snap.config_version })

  pub takes_snapshot :
      (v : ℤ) (snap : Snapshot) (m : ScreenManager F) (screens : List UiScreen)
      → latest (begun snap m).layout.screens snap.screens ≡ some screens
      → AreVisible screens
      → AreVisible m.layout.screens
      → v ≤ℤ snap.config_version
      → Answers v (take_snapshot fl app snap m)
  unfolding take_snapshot
  takes_snapshot v snap m screens e shown h k =
      let served =
        takes_server v snap.server (record m { config_version = snap.config_version }) (h, inl k) in
      bind-Answers v _ _ screens e (
        then-Answers v _ _ (removes_unsubscribed fl app v _ _ (served.0, served.1))
          (λ n l. (update_screens-AreVisible screens n.layout.screens shown l.0, l.1)))

  pub loses_snapshot :
      (snap : Snapshot) (m : ScreenManager F)
      → latest (begun snap m).layout.screens snap.screens ≡ none
      → take_snapshot fl app snap m ≡ none
  unfolding take_snapshot
  loses_snapshot snap m e = rw e refl

  pub finishes :
      (v : ℤ) (b : Bool) (m : ScreenManager F) → IsGood v m → Answers v (finish fl app b m)
  unfolding finish
  finishes v b m h =
      then-Answers v (remove_screen_by_id fl app (negsuc 0) false m) _
        (removes_id fl app v (negsuc 0) false m h)
        (λ n k.
          let own : UiScreen = record (new_screen app.host) { id = app.screen_id } in
          let visible : IsVisible own = own-IsVisible in
          let shown = add_screen-AreVisible fl app.host own n.layout visible k.0 in
          let all =
            if-IsGood v b
              (on_update_profile_config fl app
                (with_layout (add_screen fl app.host own n.layout) n))
              n (update_profile-IsGood fl app v _ (shown, k.1)) k in
          (all.0, all.1))
