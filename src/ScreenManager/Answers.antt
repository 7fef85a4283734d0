-- ===== src/ScreenManager/Answers.antt =====
-- ScreenManager.cpp: answers that leave all screens visible.
use synergy_hogsback.Prelude.{
  ap, ◌>>=◌, Bool, true, false, ◌≡◌, if◌then◌else◌, List, [], ◌∷◌, Option, none, some, arith,
  if-cases, any, ◌||◌, refl, ◌⊎◌, inl, inr, Bool-cases,
}
use synergy_hogsback.Profile.Config.{ScreenStatus}
use synergy_hogsback.Prelude.Int.{ℤ, pos, eqb_ℤ, ◌≤ℤ◌, ◌+ℤ◌, +ℤ_parts}
use synergy_hogsback.Arrangement.Screens.{UiScreen, new_screen, get_screen, find_screen}
use synergy_hogsback.Arrangement.Visible.{
  IsVisible, AreVisible, set_pos_x-IsVisible, set_pos_y-IsVisible, new_screen-IsVisible,
}
use synergy_hogsback.ScreenManager.State.{
  JsonScreen, ScreenManager, string_to_screen_status, screen_of, from_json, latest, is_skipped,
  next_version,
}

or_true : (b : Bool) → b || true ≡ true
or_true true = refl
or_true false = refl

screen_of-IsVisible : (j : JsonScreen) (status : ScreenStatus) → IsVisible (screen_of j status)
unfolding screen_of IsVisible
screen_of-IsVisible j status =
    let named : UiScreen = record (new_screen j.name) { id = j.id } in
    let start : IsVisible named = new_screen-IsVisible j.name in
    let placed = set_pos_y-IsVisible j.y_pos _ (set_pos_x-IsVisible j.x_pos named start) in
    (placed.0, placed.1, placed.2, placed.3)

-- Does the code know no status of this name?
abbrev pub is_unknown : JsonScreen → Bool
is_unknown j = elim (string_to_screen_status j.status) [ none ↦ true | some status ↦ false ]

-- The screens that are taken over are visible, unless the name of a status is not known.
unfoldable pub Takes : List JsonScreen → Option (List UiScreen) → Type 0
Takes js none = any is_unknown js ≡ true
Takes js (some screens) = AreVisible screens

later-Takes :
    (j : JsonScreen) (js : List JsonScreen) (o : Option (List UiScreen))
    → Takes js o
    → Takes (j ∷ js) o
unfolding Takes
later-Takes j js none h = rw h (or_true (is_unknown j))
later-Takes j js (some screens) h = h

taken-Takes :
    (j : JsonScreen) (js : List JsonScreen) (o : Option (List UiScreen))
    → Takes js o
    → Takes (j ∷ js) (from_json j >>= λ screen. o >>= λ screens. some (screen ∷ screens))
unfolding Takes from_json AreVisible
taken-Takes j js o h = by_status (string_to_screen_status j.status) refl o h
  where
    by_status :
        (known : Option ScreenStatus)
        → string_to_screen_status j.status ≡ known
        → (rest : Option (List UiScreen)) → Takes js rest
        → Takes (j ∷ js) (
            (known >>= λ status. some (screen_of j status)) >>= λ screen.
            rest >>= λ screens. some (screen ∷ screens))
    by_status none e rest k =
        ap
          (λ (known : Option ScreenStatus).
            (elim known [ none ↦ true | some status ↦ false ]) || any is_unknown js)
          e
    by_status (some status) e none k = rw k (or_true (is_unknown j))
    by_status (some status) e (some screens) k = (screen_of-IsVisible j status, k)

pub latest-Takes : (ss : List UiScreen) (js : List JsonScreen) → Takes js (latest ss js)
unfolding Takes AreVisible
latest-Takes ss [] = tt
latest-Takes ss (j ∷ js) =
    if-cases (Takes (j ∷ js)) (is_skipped j (get_screen ss (find_screen j.id ss)))
      (λ e. later-Takes j js _ (latest-Takes ss js)) (λ e. taken-Takes j js _ (latest-Takes ss js))

pub ≤ℤ_refl : (a : ℤ) → a ≤ℤ a
≤ℤ_refl a = ground arith

pub ≤ℤ-trans : (a b c : ℤ) → a ≤ℤ b → b ≤ℤ c → a ≤ℤ c
≤ℤ-trans a b c h k = ground arith

pub ≤ℤ-next : (a : ℤ) → a ≤ℤ a +ℤ pos 1
≤ℤ-next a = ground (arith, +ℤ_parts a (pos 1))

module _ {F : Type 0} where
  -- The version is no smaller than that one, or it has overflowed.
  abbrev pub IsCounted : ℤ → ScreenManager F → Type 0
  IsCounted v m = (v ≤ℤ m.config_version) ⊎ (m.overflowed ≡ true)

  pub same-IsCounted : (m : ScreenManager F) → IsCounted m.config_version m
  same-IsCounted m = inl (≤ℤ_refl m.config_version)

  pub next-IsCounted : (v : ℤ) (m : ScreenManager F) → IsCounted v m → IsCounted v (next_version m)
  next-IsCounted v m (inl h) = elim (Bool-cases (eqb_ℤ m.config_version (pos 2147483647))) [
    | inl last ↦ rw last (inr refl)
    | inr more ↦ rw more (inl (≤ℤ-trans v _ _ h (≤ℤ-next m.config_version)))
  ]
  next-IsCounted v m (inr h) = inr (rw h (or_true _))

  -- All screens are visible, and the version is counted.
  abbrev pub IsGood : ℤ → ScreenManager F → Type 0
  IsGood v m = AreVisible m.layout.screens × IsCounted v m

  -- An answer, and a good one.
  abbrev pub Answers : ℤ → Option (ScreenManager F) → Type 0
  Answers v none = true ≡ false
  Answers v (some m) = IsGood v m

  pub if-Answers :
      (v : ℤ) (b : Bool) (o p : Option (ScreenManager F))
      → Answers v o
      → Answers v p
      → Answers v (if b then o else p)
  if-Answers v true o p h k = h
  if-Answers v false o p h k = k

  pub if-IsGood :
      (v : ℤ) (b : Bool) (m n : ScreenManager F)
      → IsGood v m
      → IsGood v n
      → IsGood v (if b then m else n)
  if-IsGood v true m n h k = h
  if-IsGood v false m n h k = k

  pub bind-Answers :
      {A : Type 0} (v : ℤ) (o : Option A) (f : A → Option (ScreenManager F)) (a : A)
      → o ≡ some a
      → Answers v (f a)
      → Answers v (o >>= f)
  bind-Answers v none f a e h = ground arith
  bind-Answers v (some b) f a e h = ground (arith, e, h)

  pub then-Answers :
      (v : ℤ) (o : Option (ScreenManager F)) (f : ScreenManager F → Option (ScreenManager F))
      → Answers v o
      → ((m : ScreenManager F) → IsGood v m → Answers v (f m))
      → Answers v (o >>= f)
  then-Answers v none f h k = h
  then-Answers v (some m) f h k = k m h
