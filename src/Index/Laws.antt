-- ===== src/Index/Laws.antt =====
-- Sorted sequences under `place` and `erase`, for a strict order.
use synergy_hogsback.Prelude.{
  suc, ◌≡◌, refl, Bool, true, false, List, [], ◌∷◌, ◌++◌, arith, All, All-map, All-left, All-keep,
  any, keep, length, Bool-cases, inl, inr,
}
use synergy_hogsback.Index.{equivalent, IsSorted, place, erase}

-- The order of the keys is strict.
pub record IsStrict {A : Type 0} (less : A → A → Bool) : Type 0 where
  pub irrefl : (a : A) → less a a ≡ false
  pub trans : (a b c : A) → less a b ≡ true → less b c ≡ true → less a c ≡ true

module _ {A : Type 0} (less : A → A → Bool) where
  pub All-place : (P : A → Type 0) (e : A) (t : List A) → P e → All P t → All P (place less e t)
  unfolding place
  All-place P e [] h k = (h, tt)
  All-place P e (x ∷ xs) h k = ground (arith, All-place P e xs h k.1)

  pub All-erase : (P : A → Type 0) (e : A) (t : List A) → All P t → All P (erase less e t)
  unfolding erase
  All-erase P e [] k = tt
  All-erase P e (x ∷ xs) k = ground (arith, All-erase P e xs k.1)

  pub length-place : (e : A) (t : List A) → length (place less e t) ≡ suc (length t)
  unfolding place
  length-place e [] = refl
  length-place e (x ∷ xs) = ground (arith, length-place e xs)

  pub erase-IsSorted : (e : A) (t : List A) → IsSorted less t → IsSorted less (erase less e t)
  unfolding erase
  erase-IsSorted e [] s = tt
  erase-IsSorted e (x ∷ xs) s =
      ground (arith, erase-IsSorted e xs s.1, All-erase (λ y. less x y ≡ true) e xs s.0)

  pub keep-IsSorted : (p : A → Bool) (t : List A) → IsSorted less t → IsSorted less (keep p t)
  keep-IsSorted p [] s = tt
  keep-IsSorted p (x ∷ xs) s =
      ground (arith, keep-IsSorted p xs s.1, All-keep (λ y. less x y ≡ true) p xs s.0)

  pub IsSorted-left : (xs ys : List A) → IsSorted less (xs ++ ys) → IsSorted less xs
  IsSorted-left [] ys s = tt
  IsSorted-left (x ∷ xs) ys s = (All-left (λ y. less x y ≡ true) xs ys s.0, IsSorted-left xs ys s.1)

  pub IsSorted-right : (xs ys : List A) → IsSorted less (xs ++ ys) → IsSorted less ys
  IsSorted-right [] ys s = s
  IsSorted-right (x ∷ xs) ys s = IsSorted-right xs ys s.1

  -- The parts of a split that the new element does not reach.
  pub place_after :
      (e : A) (xs ys : List A)
      → All (λ x. less x e ≡ true) xs
      → place less e (xs ++ ys) ≡ xs ++ place less e ys
  unfolding place
  place_after e [] ys h = refl
  place_after e (x ∷ xs) ys h = ground (arith, place_after e xs ys h.1)

  pub place_before :
      (e : A) (xs ys : List A)
      → All (λ y. less y e ≡ false) ys
      → place less e (xs ++ ys) ≡ place less e xs ++ ys
  unfolding place
  place_before e [] [] h = refl
  place_before e [] (y ∷ ys) h = ground arith
  place_before e (x ∷ xs) ys h = ground (arith, place_before e xs ys h)

  pub erase_after :
      (e : A) (xs ys : List A)
      → All (λ x. equivalent less x e ≡ false) xs
      → erase less e (xs ++ ys) ≡ xs ++ erase less e ys
  unfolding erase
  erase_after e [] ys h = refl
  erase_after e (x ∷ xs) ys h = ground (arith, erase_after e xs ys h.1)

module _ {A : Type 0} {less : A → A → Bool} (strict : IsStrict less) where
  pub place-IsSorted :
      (e : A) (t : List A)
      → IsSorted less t
      → any (equivalent less e) t ≡ false
      → IsSorted less (place less e t)
  unfolding place
  place-IsSorted e [] s n = (tt, tt)
  place-IsSorted e (x ∷ xs) s n = elim (Bool-cases (less x e)) [
    | inl before ↦
        rw (before, place)
          (
            All-place less (λ y. less x y ≡ true) e xs before s.0,
            place-IsSorted e xs s.1 (ground arith),
          )
    | inr after ↦
        let below : less e x ≡ true = ground arith in
        rw (after, place) ((below, All-map (λ y h. strict.trans e x y below h) xs s.0), (s.0, s.1))
  ]

  pub erase_here : (e : A) (t : List A) → erase less e (e ∷ t) ≡ t
  unfolding erase
  erase_here e t = ground (arith, strict.irrefl e)
