-- ===== src/Index/Listed.antt =====
-- An ordered index that meets its interface: `find` takes the first fit, `group` keeps the order.
use mathlib.Core.List.Perm
use mathlib.Core.Path.{subst}
use synergy_hogsback.Prelude.{
  ◌≡◌, refl, Bool, true, false, List, [], ◌∷◌, Option, none, some, arith, All, any, keep,
  if◌then◌else◌, Bool-cases, inl, inr,
}
use synergy_hogsback.Index.{Index, equivalent, place}

module _ {A : Type 0} where
  unfoldable pub first : (A → Bool) → List A → Option A
  first p [] = none
  first p (x ∷ xs) = let later = first p xs in if p x then some x else later

  first_none : (p : A → Bool) (t : List A) → first p t ≡ none → any p t ≡ false
  unfolding first
  first_none p [] h = refl
  first_none p (x ∷ t) h = ground (arith, first_none p t)

  first_some : (p : A → Bool) (t : List A) {e : A} → first p t ≡ some e → p e ≡ true
  unfolding first
  first_some p [] h = cc
  first_some p (x ∷ t) {e} h = elim (Bool-cases (p x)) [
    | inl hit ↦ ground arith
    | inr miss ↦ first_some p t (ground arith)
  ]

  first_in :
      (p : A → Bool) (t : List A) {e : A} (P : A → Type 0) → first p t ≡ some e → All P t → P e
  unfolding first
  first_in p [] P h k = absurd (ground arith)
  first_in p (x ∷ t) {e} P h k = elim (Bool-cases (p x)) [
    | inl hit ↦ let same : x ≡ e = ground arith in subst P same k.0
    | inr miss ↦ first_in p t P (rw miss at h) k.1
  ]

  unfoldable pub insert_unique : (A → A → Bool) → A → List A → List A × Bool
  insert_unique less e t = if any (equivalent less e) t then (t, false) else (place less e t, true)

  unfoldable pub listed : (less : A → A → Bool) → Index less
  unfolding first first_none first_some first_in insert_unique
  listed less = record {
    insert = insert_unique less;
    find = first;
    insert_refused = λ e t s h. refused e t h;
    insert_placed = λ e t s h. placed e t h;
    find_none = first_none;
    find_some = first_some;
    find_in = first_in;
    group = keep;
    group_perm = λ p t. Perm.refl (keep p t);
  }
    where
      refused :
          (e : A) (t : List A)
          → any (equivalent less e) t ≡ true
          → insert_unique less e t ≡ (t, false)
      refused e t h = rw h

      placed :
          (e : A) (t : List A)
          → any (equivalent less e) t ≡ false
          → insert_unique less e t ≡ (place less e t, true)
      placed e t h = rw h
