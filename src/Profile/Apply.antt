-- ===== src/Profile/Apply.antt =====
-- ProfileConfig.cpp, `ProfileConfig::compare` and `ProfileConfig::apply` as a whole.
use synergy_hogsback.Prelude.{
  ◌≡◌, refl, ◌∙◌, Bool, true, false, not, ◌||◌, if◌then◌else◌, List, [], ◌∷◌, ◌++◌, arith, any,
  Bool-cases, inl, inr, if-cases,
}
use synergy_hogsback.Prelude.Int.{ℤ, eqb_ℤ, ltb_ℤ}
use synergy_hogsback.Profile.Config.{
  Screen, Profile, ProfileConfig, Signal, Comparison, note, compare_screen, compare_with,
  compare_screens, added_screens, removed_screens, is_empty, compare_sets, compare_profiles,
  compare, apply,
}
use synergy_hogsback.Profile.Online.{
  has, is_active, hear_all, IsSingle, is_active_none, told, told-note, quiet_note,
  told-compare_screens, hear_online, any-removed, is_active-added,
}

-- The flag tells whether there was a signal.
abbrev pub is_silent : List Signal → Bool
is_silent [] = true
is_silent (e ∷ es) = false

abbrev IsFlagged : Comparison → Type 0
IsFlagged c = c.different ≡ not (is_silent c.signals)

is_silent-append :
    (xs : List Signal) (e : Signal) (es : List Signal) → is_silent (xs ++ (e ∷ es)) ≡ false
is_silent-append [] e es = refl
is_silent-append (x ∷ xs) e es = refl

note-IsFlagged :
    (test : Bool) (e : Signal) (es : List Signal) (c : Comparison)
    → IsFlagged c
    → IsFlagged (note test (e ∷ es) c)
unfolding note
note-IsFlagged true e es c h = rw (is_silent-append c.signals e es) refl
note-IsFlagged false e es c h = h

compare_screen-IsFlagged :
    (s t : Screen) (c : Comparison) → IsFlagged c → IsFlagged (compare_screen s t c)
unfolding compare_screen
compare_screen-IsFlagged s t c h = note-IsFlagged _ _ _ _ (
    note-IsFlagged _ _ _ _
      (note-IsFlagged _ _ _ _ (note-IsFlagged _ _ _ _ (note-IsFlagged _ _ _ _ h))))

compare_with-IsFlagged :
    (t : Screen) (own : List Screen) (c : Comparison)
    → IsFlagged c
    → IsFlagged (compare_with t own c)
unfolding compare_with
compare_with-IsFlagged t [] c h = h
compare_with-IsFlagged t (s ∷ own) c h =
    if-cases IsFlagged (eqb_ℤ s.id t.id)
      (λ _. compare_with-IsFlagged t own (compare_screen s t c) (compare_screen-IsFlagged s t c h))
      (λ _. compare_with-IsFlagged t own c h)

compare_screens-IsFlagged :
    (own ts : List Screen) (c : Comparison) → IsFlagged c → IsFlagged (compare_screens own ts c)
unfolding compare_screens
compare_screens-IsFlagged own [] c h = h
compare_screens-IsFlagged own (t ∷ ts) c h =
    compare_screens-IsFlagged own ts (compare_with t own c) (compare_with-IsFlagged t own c h)

compare_sets-IsFlagged :
    (own target : List Screen) (c : Comparison)
    → IsFlagged c
    → IsFlagged (compare_sets own target c)
unfolding compare_sets
compare_sets-IsFlagged own target c h = note-IsFlagged _ _ _ c h

compare_profiles-IsFlagged :
    (p t : Profile) (c : Comparison) → IsFlagged c → IsFlagged (compare_profiles p t c)
unfolding compare_profiles
compare_profiles-IsFlagged p t c h =
    note-IsFlagged _ _ _ _ (note-IsFlagged _ _ _ _ (note-IsFlagged _ _ _ c h))

-- `compare` answers `true` exactly when it has sent a signal, whatever the two profiles are.
pub compare-IsFlagged :
    (c target : ProfileConfig)
    → (compare c target).different ≡ not (is_silent (compare c target).signals)
unfolding compare
compare-IsFlagged c target =
    let start : Comparison = record { different = false; signals = [] } in
    let after = compare_profiles c.profile target.profile start in
    elim (Bool-cases (ltb_ℤ target.profile.version c.profile.version)) [
      | inl older ↦ rw older refl
      | inr newer ↦ rw newer (
          compare_sets-IsFlagged c.screens target.screens
            (compare_screens c.screens target.screens after)
            (compare_screens-IsFlagged c.screens target.screens after
              (compare_profiles-IsFlagged c.profile target.profile start refl)))
    ]

is_empty-any : (d : ℤ) (ss : List Screen) → is_empty ss ≡ true → any (has d) ss ≡ false
is_empty-any d [] h = refl
is_empty-any d (s ∷ ss) h = ground arith

module _ (d : ℤ) (on : Bool) where
  told-compare_profiles :
      (p t : Profile) (c : Comparison) → told d on (compare_profiles p t c) ≡ told d on c
  unfolding compare_profiles
  told-compare_profiles p t c =
      quiet_note d on _ _ _ (λ b. refl)
      ∙ quiet_note d on _ _ _ (λ b. refl)
      ∙ quiet_note d on _ _ _ (λ b. refl)

  told-compare_sets :
      (own target : List Screen) (c : Comparison)
      → told d on (compare_sets own target c) ≡ (
          is_active d (added_screens own target)
          || (if any (has d) (removed_screens own target) then false else told d on c))
  unfolding compare_sets
  told-compare_sets own target c =
      let added = added_screens own target in
      let removed = removed_screens own target in
      told-note d on (not (is_empty added) || not (is_empty removed)) _ c
      ∙ elim (Bool-cases (not (is_empty added) || not (is_empty removed))) [
        | inl some_changed ↦
            rw some_changed
              (hear_online d on (if any (has d) removed then false else told d on c) added)
        | inr none_changed ↦
            let a = is_empty-any d added (ground arith) in
            let r = is_empty-any d removed (ground arith) in
            rw (none_changed, is_active_none d added a, r) refl
      ]

  told-compare :
      (own target : List Screen) (c : Comparison)
      → IsSingle d own
      → IsSingle d target
      → told d on c ≡ is_active d own
      → told d on (compare_sets own target (compare_screens own target c)) ≡ is_active d target
  told-compare own target c u w k =
      told-compare_sets own target (compare_screens own target c)
      ∙ rw
          (
            is_active-added d own target,
            any-removed d own target,
            told-compare_screens d on own target c u w k,
          )
          (ground (arith, is_active_none d target, is_active_none d own))

silent : (es : List Signal) → is_silent es ≡ true → es ≡ []
silent [] h = refl
silent (e ∷ es) h = ground arith

-- If neither the profile nor the one that is applied to it has two screens of one id, then whoever
-- knows whether the screen of that id was there and active, and follows `screenOnline`,
-- `screenOffline` and the removed screens of `screenSetChanged`, knows it of the profile after
-- `apply`, also where the other profile is older or no different.
pub apply_tells_online :
    (d : ℤ) (c src : ProfileConfig)
    → IsSingle d c.screens
    → IsSingle d src.screens
    → hear_all d (is_active d c.screens) (apply c src).1 ≡ is_active d (apply c src).0.screens
unfolding apply
apply_tells_online d c src u w = elim (Bool-cases (compare c src).different) [
  | inl taken ↦
      rw (taken, apply)
        (elim (Bool-cases (ltb_ℤ src.profile.version c.profile.version)) [
          | inl older ↦ absurd (not_older older taken)
          | inr newer ↦
              unfold compare in
              rw newer (
                told-compare d (is_active d c.screens) c.screens src.screens _ u w
                  (told-compare_profiles d (is_active d c.screens) c.profile src.profile _))
        ])
  | inr left ↦
      let quiet : (compare c src).signals ≡ [] =
        silent (compare c src).signals (ground (arith, compare-IsFlagged c src)) in
      rw (left, quiet, apply) refl
]
  where
    not_older :
        ltb_ℤ src.profile.version c.profile.version ≡ true → (compare c src).different ≡ true → ⊥
    not_older older taken = unfold compare in absurd (ground arith)
