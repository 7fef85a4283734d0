-- ===== src/ScreenManager/Removal.antt =====
-- ScreenManager.cpp: removing a screen, and adjusting one.
use mathlib.Core.Path.{subst, sym}
use synergy_hogsback.Prelude.{
  ℕ, Bool, true, false, not, ◌&&◌, ◌≡◌, refl, if◌then◌else◌, List, [], ◌∷◌, Option, none, some,
  arith, inl, inr, ◌⊎◌,
}
use synergy_hogsback.Prelude.Int.{ℤ, pos, negsuc, eqb_ℤ, eqb_ℤ_refl}
use synergy_hogsback.Arrangement.Screens.{UiScreen, get_screen, find_screen, find_from}
use synergy_hogsback.Arrangement.Layout.{Floats, Layout, adjust_model, remove_screen}
use synergy_hogsback.Arrangement.Visible.{AreVisible}
use synergy_hogsback.Arrangement.History.{
  drop, remove, perform, Outcome, perform-Outcome, Misses, BringsVisible,
}
use synergy_hogsback.Arrangement.Lookup.{find_from_finds, find_from_misses, find_from_end}
use synergy_hogsback.ScreenManager.State.{
  Settings, ScreenManager, on_update_profile_config, tell_cloud, remove_found,
  remove_screen_by_index, remove_screen_by_id, remove_unsubscribed,
}
use synergy_hogsback.ScreenManager.Answers.{
  next-IsCounted, IsGood, Answers, if-Answers, if-IsGood, bind-Answers, then-Answers,
}

module _ {F : Type 0} (fl : Floats F) (app : Settings) where
  pub update_profile-IsGood :
      (v : ℤ) (m : ScreenManager F) → IsGood v m → IsGood v (on_update_profile_config fl app m)
  unfolding on_update_profile_config
  update_profile-IsGood v m h = (h.0, next-IsCounted v m h.1)

  pub tell_cloud-IsGood :
      (v : ℤ) (notify : Bool) (s : UiScreen) (m : ScreenManager F)
      → IsGood v m
      → IsGood v (tell_cloud fl app notify s m)
  tell_cloud-IsGood v notify s m h =
      if-IsGood v (not (eqb_ℤ s.id (negsuc 0)) && notify) _ m (h.0, next-IsCounted v m h.1) h

  -- Adjusting a screen of the list answers.
  pub adjusts :
      (index : ℤ) (l : Layout F)
      → AreVisible l.screens
      → (get_screen l.screens index ≡ none)
        ⊎ ((n : Layout F) × (adjust_model fl app.host index l ≡ some n) × AreVisible n.screens)
  unfolding perform Outcome Misses BringsVisible
  adjusts index l h =
      go (adjust_model fl app.host index l) refl (perform-Outcome fl app.host (drop index) l tt h)
    where
      go :
          (o : Option (Layout F))
          → adjust_model fl app.host index l ≡ o
          → Outcome fl app.host (drop index) l.screens o
          → (get_screen l.screens index ≡ none)
            ⊎ ((n : Layout F) × (adjust_model fl app.host index l ≡ some n) × AreVisible n.screens)
      go none e k = inl k
      go (some n) e k = inr (n, e, k)

  pub removes :
      (d : ℤ) (l : Layout F)
      → AreVisible l.screens
      → ((n : ℕ) × (find_screen d l.screens ≡ negsuc n))
        ⊎ ((n : Layout F) × (remove_screen fl d l ≡ some n) × AreVisible n.screens)
  unfolding perform Outcome Misses BringsVisible
  removes d l h = go (remove_screen fl d l) refl (perform-Outcome fl app.host (remove d) l tt h)
    where
      go :
          (o : Option (Layout F))
          → remove_screen fl d l ≡ o
          → Outcome fl app.host (remove d) l.screens o
          → ((n : ℕ) × (find_screen d l.screens ≡ negsuc n))
            ⊎ ((n : Layout F) × (remove_screen fl d l ≡ some n) × AreVisible n.screens)
      go none e k = inl k
      go (some n) e k = inr (n, e, k)

  pub same_id : (s : UiScreen) → eqb_ℤ s.id s.id ≡ true
  same_id s = eqb_ℤ_refl s.id

  pub removes_at :
      (v : ℤ) (k : ℕ) (s : UiScreen) (notify : Bool) (m : ScreenManager F)
      → get_screen m.layout.screens (pos k) ≡ some s
      → IsGood v m
      → Answers v (remove_found fl app (pos k) notify m)
  unfolding remove_found
  removes_at v k s notify m e h = bind-Answers v _ _ s e (elim (removes s.id m.layout h.0) [
    | inl gone ↦ ground (
      arith,
      find_from_misses (λ t. eqb_ℤ t.id s.id) m.layout.screens k gone.0 s e (same_id s) gone.1,
    )
    | inr left ↦ bind-Answers v _ _ left.0 left.1 (left.2, (tell_cloud-IsGood v notify s m h).1)
  ])

  -- A search for a screen, and the removal of what it finds.
  pub removes_found :
      (v : ℤ) (p : UiScreen → Bool) (notify : Bool) (m : ScreenManager F)
      → IsGood v m
      → Answers v (remove_screen_by_index fl app (find_from p 0 m.layout.screens) notify m)
  unfolding remove_screen_by_index
  removes_found v p notify m h = go (find_from p 0 m.layout.screens) refl
    where
      go :
          (r : ℤ)
          → find_from p 0 m.layout.screens ≡ r
          → Answers v (if eqb_ℤ r (negsuc 0) then some m else remove_found fl app r notify m)
      go (pos k) e =
          let found = find_from_finds p m.layout.screens k e in
          removes_at v k found.0 notify m found.1 h
      go (negsuc n) e =
          subst
            (λ j. Answers v (
              if eqb_ℤ (negsuc j) (negsuc 0)
              then some m
              else remove_found fl app (negsuc j) notify m))
            (sym (find_from_end p 0 m.layout.screens n e)) h

  pub removes_id :
      (v d : ℤ) (notify : Bool) (m : ScreenManager F)
      → IsGood v m
      → Answers v (remove_screen_by_id fl app d notify m)
  unfolding remove_screen_by_id
  removes_id v d notify m h =
      if-Answers v _ (some m) _ h (removes_found v (λ s. eqb_ℤ s.id d) notify m h)

  pub removes_unsubscribed :
      (v : ℤ) (ds : List ℤ) (m : ScreenManager F)
      → IsGood v m
      → Answers v (remove_unsubscribed fl app ds m)
  unfolding remove_unsubscribed
  removes_unsubscribed v [] m h = h
  removes_unsubscribed v (d ∷ ds) m h =
      then-Answers v (remove_screen_by_id fl app d false m) _ (removes_id v d false m h)
        (λ n k. removes_unsubscribed v ds _ (if-IsGood v (eqb_ℤ d app.screen_id) _ n (k.0, k.1) k))
