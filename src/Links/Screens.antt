-- ===== src/Links/Screens.antt =====
-- ConfigGen.cpp: linkScreens, by the place of each screen on each of its sides.
use mathlib.Core.Path.{subst}
use synergy_hogsback.Prelude.{
  ℕ, suc, zero, ◌+◌, Bool, not, ◌&&◌, ◌==◌, ◌≡◌, refl, sym, ap, ◌∙◌, List, [], ◌∷◌, some, All, keep,
  arith, get_elem?,
}
use synergy_hogsback.Prelude.Int.{ℤ, ltb_ℤ, leb_ℤ}
use synergy_hogsback.Profile.Config.{Screen}
use synergy_hogsback.Links.Edges.{
  Target, EdgeMaps, EdgeLaws, IsOrder, enter, right_of, bottom_of, rows, columns, x_less, x_greater,
  y_less, y_greater, Direction, up, right, down, left, ScreenLinks, edge, number, links_of,
  link_all, link_screens, link_left, link_right, link_up, link_down,
}
use synergy_hogsback.Links.Nearest.{IsLast, is_beside, HasId, enter-IsLast}

-- The screen is another one than the source.
abbrev pub is_other : Target → Target → Bool
is_other source t = not (t.0 == source.0)

-- No part of the screen lies beyond the side opposite to the direction, nor beside the source's
-- other two sides.
abbrev pub lies_on : Direction → Target → Target → Bool
lies_on left source t =
    ((is_other source t && not (leb_ℤ (right_of source.1) t.1.x))
      && not (leb_ℤ (bottom_of t.1) source.1.y))
    && not (leb_ℤ (bottom_of source.1) t.1.y)
lies_on right source t =
    ((is_other source t && not (leb_ℤ (right_of t.1) source.1.x))
      && not (leb_ℤ (bottom_of t.1) source.1.y))
    && not (leb_ℤ (bottom_of source.1) t.1.y)
lies_on up source t =
    ((is_other source t && not (leb_ℤ (right_of t.1) source.1.x))
      && not (leb_ℤ (right_of source.1) t.1.x))
    && not (leb_ℤ (bottom_of source.1) t.1.y)
lies_on down source t =
    ((is_other source t && not (leb_ℤ (right_of t.1) source.1.x))
      && not (leb_ℤ (right_of source.1) t.1.x))
    && not (leb_ℤ (bottom_of t.1) source.1.y)

-- The part of the source's side where the screen lies.
abbrev pub part : Direction → Target → Target → ℤ × ℤ
part left source t = rows source t
part right source t = rows source t
part up source t = columns source t
part down source t = columns source t

-- Does the first screen start farther out in the direction than the second?
abbrev pub farther : Direction → Target → Target → Bool
farther left = x_less
farther right = x_greater
farther up = y_less
farther down = y_greater

-- The screen lies in the direction of the source, beside the position on its side.
abbrev pub reaches : Direction → Target → ℤ → Target → Bool
reaches dir source p t = lies_on dir source t && is_beside (part dir source) p t

keep-keep :
    {A : Type 0} (p q : A → Bool) (xs : List A) → keep p (keep q xs) ≡ keep (λ x. q x && p x) xs
keep-keep p q [] = refl
keep-keep p q (x ∷ xs) = ground (arith, keep-keep p q xs)

keep_four :
    {A : Type 0} (p q r s : A → Bool) (xs : List A)
    → keep s (keep r (keep q (keep p xs))) ≡ keep (λ x. ((p x && q x) && r x) && s x) xs
keep_four p q r s xs =
    ap (λ ys. keep s (keep r ys)) (keep-keep q p xs)
    ∙ ap (keep s) (keep-keep r (λ x. p x && q x) xs)
    ∙ keep-keep s (λ x. (p x && q x) && r x) xs

by_key : (key : Target → ℤ) → IsOrder (λ a b. ltb_ℤ (key a) (key b))
by_key key = record {
  irreflexive = λ a. ground arith;
  transitive = λ a b c h k. ground arith;
  separates = λ a b c h. ground arith;
}

reversed : (less : Target → Target → Bool) → IsOrder less → IsOrder (λ a b. less b a)
reversed less o = record {
  irreflexive = o.irreflexive;
  transitive = λ a b c h k. o.transitive c b a k h;
  separates = λ a b c h. ground (arith, o.separates c b a h);
}

farther-IsOrder : (dir : Direction) → IsOrder (farther dir)
farther-IsOrder left = by_key (λ t. t.1.x)
farther-IsOrder right = reversed x_less (by_key (λ t. t.1.x))
farther-IsOrder up = by_key (λ t. t.1.y)
farther-IsOrder down = reversed y_less (by_key (λ t. t.1.y))

module _ {E : Type 0} (maps : EdgeMaps E) (laws : EdgeLaws maps) where
  -- Each side is one loop over the sorted screens that lie on it.
  edge-enter :
      (dir : Direction) (source : Target) (ts : List Target)
      → edge dir (links_of maps ts source)
        ≡ enter maps
            (part dir source)
            (maps.sort (farther dir) (keep (lies_on dir source) ts))
            maps.empty
  unfolding links_of link_left link_right link_up link_down
  edge-enter left source ts =
      ap (λ near. enter maps (rows source) (maps.sort x_less near) maps.empty)
        (keep_four _ _ _ _ ts)
  edge-enter right source ts =
      ap (λ near. enter maps (rows source) (maps.sort x_greater near) maps.empty)
        (keep_four _ _ _ _ ts)
  edge-enter up source ts =
      ap (λ near. enter maps (columns source) (maps.sort y_less near) maps.empty)
        (keep_four _ _ _ _ ts)
  edge-enter down source ts =
      ap (λ near. enter maps (columns source) (maps.sort y_greater near) maps.empty)
        (keep_four _ _ _ _ ts)

  edge-IsLast :
      (dir : Direction) (source : Target) (ts : List Target) (p : ℤ)
      → All HasId ts
      → IsLast
          (reaches dir source p)
          (farther dir)
          ts
          (maps.value (edge dir (links_of maps ts source)) p)
  edge-IsLast dir source ts p ids =
      subst (λ e. IsLast (reaches dir source p) (farther dir) ts (maps.value e p))
        (sym (edge-enter dir source ts))
        (enter-IsLast maps laws (lies_on dir source) (part dir source) (farther dir) ts p
          (farther-IsOrder dir) ids)

  link_all_finds :
      (all : List Target) (i k : ℕ) (ss : List Screen) (s : Screen)
      → get_elem? ss k ≡ some s
      → get_elem? (link_all maps all (number i ss)) k ≡ some (links_of maps all (i + k, s))
  link_all_finds all i k [] s h = ground arith
  link_all_finds all i zero (t ∷ ss) s h =
      let same : t ≡ s = ground arith in
      let here : i ≡ i + 0 = omega arith in λ n. some (links_of maps all (here n, same n))
  link_all_finds all i (suc k) (t ∷ ss) s h =
      link_all_finds all (suc i) k ss s h ∙ ap (λ j. some (links_of maps all (j, s))) (omega arith)

  -- If no screen has the id 0, each screen has links, and at each position of each of its sides these
  -- have the id of a screen that lies there, with none that lies there any nearer, or none does and
  -- there is no link.
  pub link_screens-IsLast :
      (ss : List Screen) (i : ℕ) (s : Screen)
      → All HasId (number 0 ss)
      → get_elem? ss i ≡ some s
      → (links : ScreenLinks E) × (get_elem? (link_screens maps ss) i ≡ some links)
        × ((dir : Direction) (p : ℤ)
            → IsLast
                (reaches dir (i, s) p)
                (farther dir)
                (number 0 ss)
                (maps.value (edge dir links) p))
  unfolding link_screens
  link_screens-IsLast ss i s ids h = (
    links_of maps (number 0 ss) (i, s),
    link_all_finds (number 0 ss) 0 i ss s h
        ∙ ap (λ j. some (links_of maps (number 0 ss) (j, s))) (omega arith),
    λ dir p. edge-IsLast dir (i, s) (number 0 ss) p ids,
  )
