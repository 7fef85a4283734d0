-- ===== src/Links/Listed.antt =====
-- The edges and the sorting that ConfigGen.cpp uses, by lists.
use synergy_hogsback.Prelude.{
  Bool, true, false, ◌&&◌, ◌||◌, ◌≡◌, refl, if◌then◌else◌, List, [], ◌∷◌, Option, none, some, All,
  any, if-cases, arith, Bool-cases, inl, inr, All-map, ◌∙◌, ap,
}
use synergy_hogsback.Prelude.Int.{ℤ, leb_ℤ}
use synergy_hogsback.Links.Edges.{Target, EdgeMaps, EdgeLaws, IsSorted, IsOrder}

-- An interval with its id; the latest entry stands first.
abbrev pub Entries : Type 0
Entries = List (ℤ × ℤ × ℤ)

abbrev value_at : Entries → ℤ → Option ℤ
value_at [] p = none
value_at (e ∷ es) p =
    let rest = value_at es p in if leb_ℤ e.0 p && leb_ℤ p e.1 then some e.2 else rest

abbrev insert : (Target → Target → Bool) → Target → List Target → List Target
insert less t [] = t ∷ []
insert less t (u ∷ us) = let rest = insert less t us in if less u t then u ∷ rest else t ∷ u ∷ us

abbrev insertion_sort : (Target → Target → Bool) → List Target → List Target
insertion_sort less [] = []
insertion_sort less (t ∷ ts) = insert less t (insertion_sort less ts)

abbrev pub entries : EdgeMaps Entries
entries = record {
  empty = [];
  put = λ low high d e. (low, high, d) ∷ e;
  value = value_at;
  sort = insertion_sort;
}

module _ (less : Target → Target → Bool) (test : Target → Bool) where
  any-insert :
      (t : Target) (ts : List Target) → any test (insert less t ts) ≡ (test t || any test ts)
  any-insert t [] = refl
  any-insert t (u ∷ us) = ground (arith, any-insert t us)

  any-insertion_sort : (ts : List Target) → any test (insertion_sort less ts) ≡ any test ts
  any-insertion_sort [] = refl
  any-insertion_sort (t ∷ ts) =
      any-insert t (insertion_sort less ts) ∙ ap (λ b. test t || b) (any-insertion_sort ts)

module _ (less : Target → Target → Bool) (order : IsOrder less) where
  All-insert :
      (P : Target → Type 0) (t : Target) (ts : List Target)
      → P t
      → All P ts
      → All P (insert less t ts)
  All-insert P t [] h k = (h, tt)
  All-insert P t (u ∷ us) h k =
      if-cases (All P) (less u t) (λ e. (k.0, All-insert P t us h k.1)) (λ e. (h, k))

  after : (t u : Target) → less u t ≡ true → less t u ≡ false
  after t u h = elim (Bool-cases (less t u)) [
    | inl both ↦ ground (arith, order.transitive t u t both h, order.irreflexive t)
    | inr neither ↦ neither
  ]

  before : (t u v : Target) → less u t ≡ false → less v u ≡ false → less v t ≡ false
  before t u v h k = elim (Bool-cases (less v t)) [
    | inl first ↦ ground (arith, order.separates v u t first, h, k)
    | inr neither ↦ neither
  ]

  insert-IsSorted :
      (t : Target) (ts : List Target) → IsSorted less ts → IsSorted less (insert less t ts)
  unfolding IsSorted
  insert-IsSorted t [] h = (tt, tt)
  insert-IsSorted t (u ∷ us) h =
      if-cases (IsSorted less) (less u t)
        (λ e. (All-insert (λ v. less v u ≡ false) t us (after t u e) h.0, insert-IsSorted t us h.1))
        (λ e. ((e, All-map (λ v k. before t u v e k) us h.0), h))

  insertion_sort-IsSorted : (ts : List Target) → IsSorted less (insertion_sort less ts)
  unfolding IsSorted
  insertion_sort-IsSorted [] = tt
  insertion_sort-IsSorted (t ∷ ts) =
      insert-IsSorted t (insertion_sort less ts) (insertion_sort-IsSorted ts)

pub entries-EdgeLaws : EdgeLaws entries
entries-EdgeLaws = record {
  value-empty = λ p. refl;
  value-put = λ low high d e p h. refl;
  any-sort = any-insertion_sort;
  sort-IsSorted = λ less ts order. insertion_sort-IsSorted less order ts;
}
