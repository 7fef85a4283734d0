-- ===== src/Arrangement/Lookup.antt =====
-- ScreenListModel.cpp: the list of screens as a map from ids to screens.
use mathlib.Core.Path.{sym}
use synergy_hogsback.Prelude.{
  ℕ, suc, zero, Bool, true, false, ◌≡◌, refl, ap, if◌then◌else◌, List, [], ◌∷◌, Option, none, some,
  arith, Bool-cases, inl, inr, ◌∙◌,
}
use synergy_hogsback.Prelude.Int.{ℤ, pos, negsuc, eqb_ℤ, eqb_ℤ-eq}
use synergy_hogsback.Arrangement.Screens.{
  UiScreen, get_screen, find_from, find_screen, put_row, update_one, update_screens,
}

-- The screen that the list has for an id.
unfoldable pub lookup : ℤ → List UiScreen → Option UiScreen
lookup d ss = get_screen ss (find_screen d ss)

-- The first screen of an id.
first : ℤ → List UiScreen → Option UiScreen
first d [] = none
first d (s ∷ ss) = let rest = first d ss in if eqb_ℤ s.id d then some s else rest

-- The last screen of an id, or else the one given.
pub last_of : ℤ → List UiScreen → Option UiScreen → Option UiScreen
last_of d [] old = old
last_of d (s ∷ ss) old = last_of d ss (if eqb_ℤ s.id d then some s else old)

-- An index counted from one place farther on.
abbrev next : ℤ → ℤ
next (pos i) = pos (suc i)
next (negsuc n) = negsuc n

find_from-suc :
    (p : UiScreen → Bool) (i : ℕ) (ss : List UiScreen)
    → find_from p (suc i) ss ≡ next (find_from p i ss)
find_from-suc p i [] = refl
find_from-suc p i (s ∷ ss) = ground (arith, find_from-suc p (suc i) ss)

get_screen-next :
    (s : UiScreen) (ss : List UiScreen) (r : ℤ) → get_screen (s ∷ ss) (next r) ≡ get_screen ss r
get_screen-next s ss (pos i) = refl
get_screen-next s ss (negsuc n) = refl

put_row-next :
    (s t : UiScreen) (ss : List UiScreen) (r : ℤ) → put_row (next r) s (t ∷ ss) ≡ t ∷ put_row r s ss
put_row-next s t ss (pos i) = refl
put_row-next s t ss (negsuc n) = refl

find_screen_here :
    (d : ℤ) (s : UiScreen) (ss : List UiScreen)
    → eqb_ℤ s.id d ≡ true
    → find_screen d (s ∷ ss) ≡ pos 0
find_screen_here d s ss e = rw e refl

find_screen_there :
    (d : ℤ) (s : UiScreen) (ss : List UiScreen)
    → eqb_ℤ s.id d ≡ false
    → find_screen d (s ∷ ss) ≡ next (find_screen d ss)
find_screen_there d s ss e = rw e (find_from-suc _ 0 ss)

lookup-first : (d : ℤ) (ss : List UiScreen) → lookup d ss ≡ first d ss
unfolding lookup first
lookup-first d [] = refl
lookup-first d (s ∷ ss) = elim (Bool-cases (eqb_ℤ s.id d)) [
  | inl here ↦ ap (get_screen (s ∷ ss)) (find_screen_here d s ss here) ∙ rw here refl
  | inr there ↦
      ap (get_screen (s ∷ ss)) (find_screen_there d s ss there)
      ∙ get_screen-next s ss (find_screen d ss)
      ∙ rw there (lookup-first d ss)
]

-- Of two tests that do not hold together, either can come first.
swap_tests :
    {A : Type 0} (a b : Bool) (x y z : A)
    → (a ≡ true → b ≡ true → false ≡ true)
    → (if b then x else (if a then y else z)) ≡ (if a then y else (if b then x else z))
swap_tests a b x y z h = ground arith

same_id : (a b d : ℤ) → eqb_ℤ a d ≡ true → eqb_ℤ b d ≡ true → eqb_ℤ b a ≡ true
same_id a b d h k = ground arith

first-update_one :
    (d : ℤ) (s : UiScreen) (ss : List UiScreen)
    → first d (update_one s ss) ≡ (if eqb_ℤ s.id d then some s else first d ss)
unfolding first update_one
first-update_one d s [] = refl
first-update_one d s (t ∷ ss) = elim (Bool-cases (eqb_ℤ t.id s.id)) [
  | inl here ↦
      ap (λ r. first d (put_row r s (t ∷ ss))) (find_screen_here s.id t ss here)
      ∙ ground (arith, eqb_ℤ-eq t.id s.id here)
  | inr there ↦
      ap (λ r. first d (put_row r s (t ∷ ss))) (find_screen_there s.id t ss there)
      ∙ ap (first d) (put_row-next s t ss (find_screen s.id ss))
      ∙ ap (λ o. if eqb_ℤ t.id d then some t else o) (first-update_one d s ss)
      ∙ swap_tests (eqb_ℤ s.id d) (eqb_ℤ t.id d) (some t) (some s) (first d ss)
          (λ h k. sym there ∙ same_id s.id t.id d h k)
]

-- An index that a search answers is that of a screen, and a search for a screen of the list answers one.
pub find_from_finds :
    (p : UiScreen → Bool) (ss : List UiScreen) (k : ℕ)
    → find_from p 0 ss ≡ pos k
    → (s : UiScreen) × (get_screen ss (pos k) ≡ some s)
find_from_finds p [] k h = ground arith
find_from_finds p (s ∷ ss) k h = elim (Bool-cases (p s)) [
  | inl here ↦ at_head k (sym (ap (λ b. if b then pos 0 else find_from p 1 ss) here) ∙ h)
  | inr there ↦
      in_tail k (find_from p 0 ss)
        (sym (ap (λ b. if b then pos 0 else find_from p 1 ss) there ∙ find_from-suc p 0 ss) ∙ h)
        (find_from_finds p ss)
]
  where
    at_head : (k : ℕ) → pos 0 ≡ pos k → (t : UiScreen) × (get_screen (s ∷ ss) (pos k) ≡ some t)
    at_head zero e = (s, refl)
    at_head (suc k) e = ground arith

    in_tail :
        (k : ℕ) (r : ℤ)
        → next r ≡ pos k
        → ((j : ℕ) → r ≡ pos j → (t : UiScreen) × (get_screen ss (pos j) ≡ some t))
        → (t : UiScreen) × (get_screen (s ∷ ss) (pos k) ≡ some t)
    in_tail zero (pos i) f finds = ground arith
    in_tail k (negsuc n) f finds = ground arith
    in_tail (suc k) (pos i) f finds = finds k (ground (arith, f))

pub find_from_end :
    (p : UiScreen → Bool) (i : ℕ) (ss : List UiScreen) (n : ℕ) → find_from p i ss ≡ negsuc n → n ≡ 0
find_from_end p i [] n h = ground arith
find_from_end p i (s ∷ ss) n h = elim (Bool-cases (p s)) [
  | inl here ↦ ground (arith, sym (ap (λ b. if b then pos i else find_from p (suc i) ss) here) ∙ h)
  | inr there ↦
      find_from_end p (suc i) ss n
        (sym (ap (λ b. if b then pos i else find_from p (suc i) ss) there) ∙ h)
]

pub find_from_misses :
    (p : UiScreen → Bool) (ss : List UiScreen) (i n : ℕ) (s : UiScreen)
    → get_screen ss (pos i) ≡ some s
    → p s ≡ true
    → find_from p 0 ss ≡ negsuc n
    → true ≡ false
find_from_misses p [] i n s h k e = ground arith
find_from_misses p (t ∷ ss) i n s h k e = elim (Bool-cases (p t)) [
  | inl here ↦
      let at = sym (ap (λ b. if b then pos 0 else find_from p 1 ss) here) ∙ e in ground (arith, at)
  | inr there ↦
      let later : next (find_from p 0 ss) ≡ negsuc n =
        sym (ap (λ b. if b then pos 0 else find_from p 1 ss) there ∙ find_from-suc p 0 ss) ∙ e in
      go i (find_from p 0 ss) h later (λ j l f. find_from_misses p ss j l s f k) there
]
  where
    go :
        (i : ℕ) (r : ℤ)
        → get_screen (t ∷ ss) (pos i) ≡ some s
        → next r ≡ negsuc n
        → ((j l : ℕ) → get_screen ss (pos j) ≡ some s → r ≡ negsuc l → true ≡ false)
        → p t ≡ false
        → true ≡ false
    go i (pos r) f l again there = ground (arith, l)
    go zero (negsuc r) f l again there =
        let same : t ≡ s = ground (arith, f) in sym k ∙ ap p (sym same) ∙ there
    go (suc i) (negsuc r) f l again there = again i r f refl

-- After the list is updated with some screens, it has for each id the last of these that has the id,
-- or else the screen it had before.
pub lookup-update_screens :
    (d : ℤ) (more ss : List UiScreen)
    → lookup d (update_screens more ss) ≡ last_of d more (lookup d ss)
unfolding update_screens last_of
lookup-update_screens d [] ss = refl
lookup-update_screens d (s ∷ more) ss =
    lookup-update_screens d more (update_one s ss)
    ∙ ap (last_of d more) (
        lookup-first d (update_one s ss)
        ∙ first-update_one d s ss
        ∙ ap (λ o. if eqb_ℤ s.id d then some s else o) (sym (lookup-first d ss)))
