-- ===== src/Profile/Online.antt =====
-- ProfileConfig.cpp, the signals `screenOnline`, `screenOffline` and `screenSetChanged` against the
-- screens of a profile.
use synergy_hogsback.Prelude.{
  ◌≡◌, refl, ap, ◌∙◌, Bool, true, false, not, ◌&&◌, ◌||◌, if◌then◌else◌, List, [], ◌∷◌, ◌++◌, map,
  arith, any, keep, Bool-cases, inl, inr, if-cases,
}
use synergy_hogsback.Prelude.Int.{ℤ, eqb_ℤ, eqb_ℤ-eq, eqb_ℤ-sym}
use synergy_hogsback.Prelude.Text.{eqb_String}
use synergy_hogsback.Profile.Config.{
  Screen, Signal, modified, profile_id_changed, profile_name_changed, profile_server_changed,
  screen_name_changed, screen_ip_set_changed, screen_position_changed, screen_status_changed,
  screen_set_changed, screen_online, screen_offline, eqb, Comparison, note, compare_screen,
  compare_with, compare_screens, added_screens, removed_screens,
}

abbrev pub has : ℤ → Screen → Bool
has d s = eqb_ℤ s.id d

-- Is the screen there and active?
abbrev pub is_active : ℤ → List Screen → Bool
is_active d [] = false
is_active d (s ∷ ss) = (has d s && s.active) || is_active d ss

-- What a listener takes for the state of a screen after one more signal.
abbrev pub hear : ℤ → Bool → Signal → Bool
hear d on modified = on
hear d on (profile_id_changed n) = on
hear d on (profile_name_changed n) = on
hear d on (profile_server_changed n) = on
hear d on (screen_name_changed n) = on
hear d on (screen_ip_set_changed s) = on
hear d on (screen_position_changed n) = on
hear d on (screen_status_changed n) = on
hear d on (screen_set_changed added removed) = if any (has d) removed then false else on
hear d on (screen_online s) = if has d s then true else on
hear d on (screen_offline s) = if has d s then false else on

abbrev pub hear_all : ℤ → Bool → List Signal → Bool
hear_all d on [] = on
hear_all d on (e ∷ es) = hear_all d (hear d on e) es

hear_all-append :
    (d : ℤ) (on : Bool) (xs ys : List Signal)
    → hear_all d on (xs ++ ys) ≡ hear_all d (hear_all d on xs) ys
hear_all-append d on [] ys = refl
hear_all-append d on (x ∷ xs) ys = hear_all-append d (hear d on x) xs ys

-- No two screens of the list have the id.
abbrev pub IsSingle : ℤ → List Screen → Type 0
IsSingle d [] = Unit
IsSingle d (s ∷ ss) = (has d s ≡ true → any (has d) ss ≡ false) × IsSingle d ss

pub is_active_none : (d : ℤ) (ss : List Screen) → any (has d) ss ≡ false → is_active d ss ≡ false
is_active_none d [] h = refl
is_active_none d (s ∷ ss) h = ground (arith, is_active_none d ss)

module _ (d : ℤ) (on : Bool) where
  abbrev pub told : Comparison → Bool
  told c = hear_all d on c.signals

  -- A note of signals changes what is told as they do, if it is made.
  pub told-note :
      (test : Bool) (es : List Signal) (c : Comparison)
      → told (note test es c) ≡ (if test then hear_all d (told c) es else told c)
  unfolding note
  told-note true es c = hear_all-append d on c.signals es
  told-note false es c = refl

  pub quiet_note :
      (test : Bool) (e : Signal) (c : Comparison)
      → ((b : Bool) → hear d b e ≡ b)
      → told (note test (e ∷ []) c) ≡ told c
  quiet_note test e c quiet =
      told-note test (e ∷ []) c ∙ if-cases (λ b. b ≡ told c) test (λ _. quiet (told c)) (λ _. refl)

  told-compare_screen :
      (s t : Screen) (c : Comparison)
      → told (compare_screen s t c)
        ≡ (if not (eqb s.active t.active) then (if has d t then t.active else told c) else told c)
  unfolding compare_screen
  told-compare_screen s t c =
      quiet_note _ _ _ (λ b. refl)
      ∙ quiet_note _ _ _ (λ b. refl)
      ∙ quiet_note _ _ _ (λ b. refl)
      ∙ told-note _ _ _
      ∙ rw (quiet_note (not (eqb_String s.name t.name)) (screen_name_changed t.id) c (λ b. refl))
          (spoken t.active (told c))
    where
      spoken :
          (a b : Bool)
          → (if not (eqb s.active t.active)
              then hear_all d b ((if a then screen_online t else screen_offline t) ∷ [])
              else b)
            ≡ (if not (eqb s.active t.active) then (if has d t then a else b) else b)
      spoken true b = refl
      spoken false b = refl

  -- Screens of other ids say nothing of this one.
  told-compare_with_other :
      (t : Screen) (own : List Screen) (c : Comparison)
      → has d t ≡ false
      → told (compare_with t own c) ≡ told c
  unfolding compare_with
  told-compare_with_other t [] c h = refl
  told-compare_with_other t (s ∷ own) c h =
      if-cases (λ r. told r ≡ told c) (eqb_ℤ s.id t.id)
        (λ _.
          told-compare_with_other t own (compare_screen s t c) h
          ∙ told-compare_screen s t c
          ∙ rw h (if-cases (λ b. b ≡ told c) (not (eqb s.active t.active)) (λ _. refl) (λ _. refl)))
        (λ _. told-compare_with_other t own c h)

  compare_with_none :
      (t : Screen) (own : List Screen) (c : Comparison)
      → has d t ≡ true
      → any (has d) own ≡ false
      → compare_with t own c ≡ c
  unfolding compare_with
  compare_with_none t [] c h k = refl
  compare_with_none t (s ∷ own) c h k =
      let test : eqb_ℤ s.id t.id ≡ has d s = ap (eqb_ℤ s.id) (eqb_ℤ-eq t.id d h) in
      let other : eqb_ℤ s.id t.id ≡ false = ground arith in
      rw other (compare_with_none t own c h (ground arith))

  told-compare_with :
      (t : Screen) (own : List Screen) (c : Comparison)
      → has d t ≡ true
      → IsSingle d own
      → told c ≡ is_active d own
      → told (compare_with t own c) ≡ (any (has d) own && t.active)
  unfolding compare_with
  told-compare_with t [] c h u k = k
  told-compare_with t (s ∷ own) c h u k =
      let test : eqb_ℤ s.id t.id ≡ has d s = ap (eqb_ℤ s.id) (eqb_ℤ-eq t.id d h) in
      elim (Bool-cases (has d s)) [
        | inl same ↦
            let alone = u.0 same in
            let rest = is_active_none d own alone in
            let hit : eqb_ℤ s.id t.id ≡ true = test ∙ same in
            let spoken : told (compare_screen s t c) ≡ t.active =
              told-compare_screen s t c
              ∙ rw h (heard s.active t.active (told c) (ground (arith, k, rest))) in
            rw (hit, compare_with_none t own (compare_screen s t c) h alone, same) spoken
        | inr other ↦
            let miss : eqb_ℤ s.id t.id ≡ false = test ∙ other in
            rw (miss, other) (told-compare_with t own c h u.1 (ground (arith, k)))
      ]
    where
      heard : (a b o : Bool) → o ≡ a → (if not (eqb a b) then (if true then b else o) else o) ≡ b
      heard a b o h = ground arith

  told-compare_screens_none :
      (own ts : List Screen) (c : Comparison)
      → any (has d) ts ≡ false
      → told (compare_screens own ts c) ≡ told c
  unfolding compare_screens
  told-compare_screens_none own [] c h = refl
  told-compare_screens_none own (t ∷ ts) c h =
      told-compare_screens_none own ts (compare_with t own c) (ground arith)
      ∙ told-compare_with_other t own c (ground arith)

  pub told-compare_screens :
      (own ts : List Screen) (c : Comparison)
      → IsSingle d own
      → IsSingle d ts
      → told c ≡ is_active d own
      → told (compare_screens own ts c)
        ≡ (if any (has d) ts then any (has d) own && is_active d ts else is_active d own)
  unfolding compare_screens
  told-compare_screens own [] c u w k = k
  told-compare_screens own (t ∷ ts) c u w k = elim (Bool-cases (has d t)) [
    | inl same ↦
        let alone = w.0 same in
        let rest = is_active_none d ts alone in
        rw same (
          told-compare_screens_none own ts (compare_with t own c) alone
          ∙ told-compare_with t own c same u k
          ∙ rw rest (ground arith))
    | inr other ↦ rw other (
        told-compare_screens own ts (compare_with t own c) u w.1
          (told-compare_with_other t own c other ∙ k))
  ]

  pub hear_online :
      (b : Bool) (added : List Screen)
      → hear_all d b (map screen_online (keep (λ s. s.active) added)) ≡ (is_active d added || b)
  hear_online b [] = refl
  hear_online b (s ∷ added) = elim (Bool-cases s.active) [
    | inl on ↦ rw on (hear_online (if has d s then true else b) added ∙ ground arith)
    | inr off ↦ rw off (hear_online b added ∙ ground arith)
  ]

any-same :
    (d : ℤ) (s : Screen) (ts : List Screen)
    → s.id ≡ d
    → any (λ t. eqb_ℤ s.id t.id) ts ≡ any (has d) ts
any-same d s [] e = refl
any-same d s (t ∷ ts) e =
    let head : eqb_ℤ s.id t.id ≡ eqb_ℤ t.id d = eqb_ℤ-sym s.id t.id ∙ ap (eqb_ℤ t.id) e in
    rw (head, any-same d s ts e) refl

any-other :
    (d : ℤ) (t : Screen) (ss : List Screen)
    → t.id ≡ d
    → any (λ s. eqb_ℤ s.id t.id) ss ≡ any (has d) ss
any-other d t [] e = refl
any-other d t (s ∷ ss) e =
    let head : eqb_ℤ s.id t.id ≡ eqb_ℤ s.id d = ap (eqb_ℤ s.id) e in
    rw (head, any-other d t ss e) refl

pub any-removed :
    (d : ℤ) (own target : List Screen)
    → any (has d) (removed_screens own target) ≡ (any (has d) own && not (any (has d) target))
unfolding removed_screens
any-removed d [] target = refl
any-removed d (s ∷ own) target = elim (Bool-cases (has d s)) [
  | inl same ↦
      let e = any-same d s target (eqb_ℤ-eq s.id d same) in
      ground (arith, same, e, any-removed d own target)
  | inr other ↦ ground (arith, other, any-removed d own target)
]

pub is_active-added :
    (d : ℤ) (own target : List Screen)
    → is_active d (added_screens own target) ≡ (is_active d target && not (any (has d) own))
unfolding added_screens
is_active-added d own [] = refl
is_active-added d own (t ∷ target) = elim (Bool-cases (has d t)) [
  | inl same ↦
      let e = any-other d t own (eqb_ℤ-eq t.id d same) in
      ground (arith, same, e, is_active-added d own target)
  | inr other ↦ ground (arith, other, is_active-added d own target)
]
