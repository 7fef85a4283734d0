-- ===== src/Links/Nearest.antt =====
-- ConfigGen.cpp: of the screens that lie on a side, the nearest one is linked.
use mathlib.Core.Path.{subst}
use synergy_hogsback.Prelude.{
  Bool, true, false, not, ◌&&◌, ◌≡◌, refl, sym, ap, ◌∙◌, if◌then◌else◌, List, [], ◌∷◌, Option, none,
  some, All, any, keep, arith, Bool-cases, inl, inr, any-false, any_none, All-map, All-keep,
}
use synergy_hogsback.Prelude.Int.{ℤ, pos, leb_ℤ, eqb_ℤ, eqb_ℤ_refl}
use synergy_hogsback.Links.Edges.{Target, EdgeMaps, EdgeLaws, IsSorted, IsOrder, enter}

-- Of the screens that pass the test, the id given is of one that no other comes after, or there are
-- none, and no id.
unfoldable pub IsLast : (Target → Bool) → (Target → Target → Bool) → List Target → Option ℤ → Type 0
IsLast reaches less ts none = any reaches ts ≡ false
IsLast reaches less ts (some d) =
    any (λ t. reaches t && (eqb_ℤ t.1.id d && not (any (λ u. reaches u && less t u) ts))) ts ≡ true

-- The position lies in the interval of the target.
abbrev pub is_beside : (Target → ℤ × ℤ) → ℤ → Target → Bool
is_beside interval p t = leb_ℤ (interval t).0 p && leb_ℤ p (interval t).1

abbrev pub HasId : Target → Type 0
HasId t = eqb_ℤ t.1.id (pos 0) ≡ false

-- The value that is left of the last one that covers the position.
last_value : (Target → Bool) → List Target → Option ℤ → Option ℤ
last_value test [] old = old
last_value test (t ∷ ts) old = last_value test ts (if test t then some t.1.id else old)

module _ {E : Type 0} (maps : EdgeMaps E) (laws : EdgeLaws maps) where
  value-enter :
      (interval : Target → ℤ × ℤ) (ts : List Target) (e : E) (p : ℤ)
      → All HasId ts
      → maps.value (enter maps interval ts e) p
        ≡ last_value (is_beside interval p) ts (maps.value e p)
  unfolding last_value
  value-enter interval [] e p h = refl
  value-enter interval (t ∷ ts) e p h =
      value-enter interval ts (maps.put (interval t).0 (interval t).1 t.1.id e) p h.1
      ∙ ap (last_value (is_beside interval p) ts)
          (laws.value-put (interval t).0 (interval t).1 t.1.id e p h.0)

any_weaken :
    {A : Type 0} (p q : A → Bool) (xs : List A)
    → All (λ x. p x ≡ true → q x ≡ true) xs
    → any p xs ≡ true
    → any q xs ≡ true
any_weaken p q [] h k = k
any_weaken p q (x ∷ xs) h k = ground (arith, h.0, any_weaken p q xs h.1, k)

any-keep :
    {A : Type 0} (p q : A → Bool) (xs : List A) → any p (keep q xs) ≡ any (λ x. q x && p x) xs
any-keep p q [] = refl
any-keep p q (x ∷ xs) = ground (arith, any-keep p q xs)

last_value_old :
    (test : Target → Bool) (ts : List Target) (old : Option ℤ)
    → All (λ t. test t ≡ false) ts
    → last_value test ts old ≡ old
unfolding last_value
last_value_old test [] old h = refl
last_value_old test (t ∷ ts) old h =
    ap (λ b. last_value test ts (if b then some t.1.id else old)) h.0
    ∙ last_value_old test ts old h.1

last_value-any :
    (test : Target → Bool) (ts : List Target) (a b : Option ℤ)
    → any test ts ≡ true
    → last_value test ts a ≡ last_value test ts b
unfolding last_value
last_value-any test [] a b h = ground arith
last_value-any test (t ∷ ts) a b h = elim (Bool-cases (test t)) [
  | inl passes ↦ rw passes refl
  | inr fails ↦ rw fails (last_value-any test ts a b (ground (arith, fails, h)))
]

module _ (test : Target → Bool) (less : Target → Target → Bool) where
  -- The target passes the test and has the id, and none that passes comes after it.
  abbrev is_top : List Target → ℤ → Target → Bool
  is_top ts d t = test t && (eqb_ℤ t.1.id d && not (any (λ u. test u && less t u) ts))

  top_stays :
      (t : Target) (ts : List Target) (d : ℤ)
      → All (λ u. less u t ≡ false) ts
      → any (is_top ts d) ts ≡ true
      → any (is_top (t ∷ ts) d) (t ∷ ts) ≡ true
  top_stays t ts d h k = ground (
    arith,
    any_weaken (is_top ts d) (is_top (t ∷ ts) d) ts (All-map (λ u l m. ground (arith, l, m)) ts h)
        k,
  )

  top_here :
      (t : Target) (ts : List Target)
      → less t t ≡ false
      → test t ≡ true
      → All (λ u. test u ≡ false) ts
      → any (is_top (t ∷ ts) t.1.id) (t ∷ ts) ≡ true
  top_here t ts irreflexive passes none_later =
      let none_after =
        any_none (λ u. test u && less t u) ts (All-map (λ u l. ground (arith, l)) ts none_later) in
      ground (arith, irreflexive, passes, none_after, eqb_ℤ_refl t.1.id)

  later-IsLast :
      (t : Target) (ts : List Target) (o : Option ℤ)
      → All (λ u. less u t ≡ false) ts
      → any test ts ≡ true
      → IsLast test less ts o
      → IsLast test less (t ∷ ts) o
  unfolding IsLast
  later-IsLast t ts none h k l = ground (arith, k, l)
  later-IsLast t ts (some d) h k l = top_stays t ts d h l

  here-IsLast :
      (t : Target) (ts : List Target)
      → less t t ≡ false
      → All (λ u. test u ≡ false) ts
      → IsLast test less (t ∷ ts) (if test t then some t.1.id else none)
  unfolding IsLast
  here-IsLast t ts irreflexive h = elim (Bool-cases (test t)) [
    | inl passes ↦
        subst (λ b. IsLast test less (t ∷ ts) (if b then some t.1.id else none)) (sym passes)
          (top_here t ts irreflexive passes h)
    | inr fails ↦
        subst (λ b. IsLast test less (t ∷ ts) (if b then some t.1.id else none)) (sym fails)
          (ground (arith, fails, any_none test ts h))
  ]

  last_value-IsLast :
      (ts : List Target)
      → ((t : Target) → less t t ≡ false)
      → IsSorted less ts
      → IsLast test less ts (last_value test ts none)
  unfolding IsLast IsSorted last_value
  last_value-IsLast [] irreflexive h = refl
  last_value-IsLast (t ∷ ts) irreflexive h = elim (Bool-cases (any test ts)) [
    | inl later ↦
        subst (IsLast test less (t ∷ ts))
          (last_value-any test ts none (if test t then some t.1.id else none) later)
          (later-IsLast t ts (last_value test ts none) h.0 later
            (last_value-IsLast ts irreflexive h.1))
    | inr none_later ↦
        let fails = any-false test ts none_later in
        subst (IsLast test less (t ∷ ts))
          (sym (last_value_old test ts (if test t then some t.1.id else none) fails))
          (here-IsLast t ts (irreflexive t) fails)
  ]

and_true : (b : Bool) → (b && true) ≡ b
and_true true = refl
and_true false = refl

any-and_true : {A : Type 0} (p : A → Bool) (xs : List A) → any (λ x. p x && true) xs ≡ any p xs
any-and_true p xs = λ i. any (λ x. and_true (p x) i) xs

-- The same elements in another order.
IsLast-reorder :
    (p q : Target → Bool) (less : Target → Target → Bool) (xs ys : List Target) (o : Option ℤ)
    → ((test : Target → Bool) → any (λ t. p t && test t) xs ≡ any (λ t. q t && test t) ys)
    → IsLast p less xs o
    → IsLast q less ys o
unfolding IsLast
IsLast-reorder p q less xs ys none same h =
    sym (any-and_true q ys) ∙ sym (same (λ t. true)) ∙ any-and_true p xs ∙ h
IsLast-reorder p q less xs ys (some d) same h =
    sym (same (λ t. eqb_ℤ t.1.id d && not (any (λ u. q u && less t u) ys)))
    ∙ (λ i. any (λ t. p t && (eqb_ℤ t.1.id d && not (sym (same (less t)) i))) xs)
    ∙ h

and_assoc : (a b c : Bool) → (a && (b && c)) ≡ ((a && b) && c)
and_assoc true b c = refl
and_assoc false b c = refl

-- Sorting some of the targets and entering them in that order leaves at each position the id of the
-- last one that covers it.
module _ {E : Type 0} (maps : EdgeMaps E) (laws : EdgeLaws maps) where
  pub enter-IsLast :
      (near : Target → Bool) (interval : Target → ℤ × ℤ) (less : Target → Target → Bool)
      → (ts : List Target) (p : ℤ) → IsOrder less
      → All HasId ts
      → IsLast
          (λ t. near t && is_beside interval p t)
          less
          ts
          (maps.value (enter maps interval (maps.sort less (keep near ts)) maps.empty) p)
  enter-IsLast near interval less ts p order ids =
      let sorted = maps.sort less (keep near ts) in
      let test = is_beside interval p in
      let unnamed = λ (t : Target). eqb_ℤ t.1.id (pos 0) in
      let named : All HasId sorted = any-false unnamed sorted (
        laws.any-sort less unnamed (keep near ts)
        ∙ any_none unnamed (keep near ts) (All-keep HasId near ts ids)) in
      let last =
        last_value-IsLast test less sorted order.irreflexive
          (laws.sort-IsSorted less (keep near ts) order) in
      let entered : maps.value (enter maps interval sorted maps.empty) p
          ≡ last_value test sorted none =
        value-enter maps laws interval sorted maps.empty p named
        ∙ ap (last_value test sorted) (laws.value-empty p) in
      subst (IsLast (λ t. near t && test t) less ts) (sym entered) (
        IsLast-reorder test (λ t. near t && test t) less sorted ts (last_value test sorted none)
          (λ probe.
            laws.any-sort less (λ t. test t && probe t) (keep near ts)
            ∙ any-keep (λ t. test t && probe t) near ts
            ∙ (λ i. any (λ t. and_assoc (near t) (test t) (probe t) i) ts))
          last)
