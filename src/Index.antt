-- ===== src/Index.antt =====
-- boost::multi_index containers as the program uses them (synergy/service/router/Router.hpp): an ordered
-- index is seen as the sequence of its elements in index order. Insertion and lookup are the
-- library's and enter as a parameter with their documented behaviour; erasing the element that an
-- iterator points to takes that element out of the sequence.
pub mod Laws
pub mod Listed
use mathlib.Core.List.{Perm}
use synergy_hogsback.Prelude.{
  ℕ, zero, suc, ◌≡◌, Bool, true, false, ◌&&◌, not, if◌then◌else◌, List, [], ◌∷◌, Option, none, some,
  All, any, keep,
}

module _ {A : Type 0} (less : A → A → Bool) where
  -- Two keys are equivalent if neither is below the other.
  abbrev pub equivalent : A → A → Bool
  equivalent a b = not (less a b) && not (less b a)

  -- The sequence rises strictly.
  abbrev pub IsSorted : List A → Type 0
  IsSorted [] = Unit
  IsSorted (x ∷ xs) = All (λ y. less x y ≡ true) xs × IsSorted xs

  -- The sequence with a new element in front of the first one above it.
  unfoldable pub place : A → List A → List A
  place e [] = e ∷ []
  place e (x ∷ xs) = let later = x ∷ place e xs in if less x e then later else e ∷ x ∷ xs

  -- `erase(it)`, the iterator given by the element that it points to.
  unfoldable pub erase : A → List A → List A
  erase e [] = []
  erase e (x ∷ xs) = let later = x ∷ erase e xs in if equivalent x e then xs else later

  -- What the documentation of a unique ordered index says of `insert` and `find`.
  pub record Index : Type 1 where
    pub insert : A → List A → List A × Bool
    pub find : (A → Bool) → List A → Option A
    pub insert_refused :
        (e : A) (t : List A) → IsSorted t → any (equivalent e) t ≡ true → insert e t ≡ (t, false)
    pub insert_placed :
        (e : A) (t : List A)
        → IsSorted t
        → any (equivalent e) t ≡ false
        → insert e t ≡ (place e t, true)
    pub find_none : (p : A → Bool) (t : List A) → find p t ≡ none → any p t ≡ false
    pub find_some : (p : A → Bool) (t : List A) {e : A} → find p t ≡ some e → p e ≡ true
    pub find_in :
        (p : A → Bool) (t : List A) {e : A} (P : A → Type 0) → find p t ≡ some e → All P t → P e
    -- the elements of one key of a hashed index, in no particular order
    pub group : (A → Bool) → List A → List A
    pub group_perm : (p : A → Bool) (t : List A) → Perm (group p t) (keep p t)

-- `rank(it)`: how many elements stand in front of the first one that fails the test.
unfoldable pub rank : {A : Type 0} → (A → Bool) → List A → ℕ
rank p [] = zero
rank p (x ∷ xs) = let later = suc (rank p xs) in if p x then later else zero
