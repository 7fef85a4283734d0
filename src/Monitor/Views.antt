-- ===== src/Monitor/Views.antt =====
-- RouterErrorMonitor.cpp: the view of one screen, which the steps for other screens leave alone.
use mathlib.Core.Path.{subst}
use synergy_hogsback.Prelude.{
  Bool, true, false, ◌≡◌, refl, ap, sym, ◌∙◌, if◌then◌else◌, List, [], ◌∷◌, ◌++◌, Option, none,
  some, arith, Bool-cases, Option-cases, inl, inr,
}
use synergy_hogsback.Prelude.Int.{ℤ, eqb_ℤ, eqb_ℤ-eq, eqb_ℤ_refl}
use synergy_hogsback.Monitor.Reach.{
  ScreenMonitor, ErrorMonitor, Notice, new_monitor, find, put, add_screen, changed, on_known,
  on_added,
}

-- What the listeners were told last of the screen.
unfoldable pub last_told : ℤ → List Notice → Option Bool
last_told d [] = none
last_told d (n ∷ ns) = let rest = last_told d ns in if eqb_ℤ n.0 d then some n.1 else rest

pub last_told_here : (d : ℤ) (b : Bool) (ns : List Notice) → last_told d ((d, b) ∷ ns) ≡ some b
unfolding last_told
last_told_here d b ns = rw (eqb_ℤ_refl d) refl

pub last_told_there :
    (d c : ℤ) (b : Bool) (ns : List Notice)
    → eqb_ℤ c d ≡ false
    → last_told d ((c, b) ∷ ns) ≡ last_told d ns
unfolding last_told
last_told_there d c b ns h = rw h refl

pub find_id :
    (d : ℤ) (m : ScreenMonitor) (ms : List ScreenMonitor) → find d ms ≡ some m → m.screen_id ≡ d
find_id d m [] h = ground arith
find_id d m (k ∷ ms) h = elim (Bool-cases (eqb_ℤ k.screen_id d)) [
  | inl here ↦
      let same : some k ≡ some m = sym (ap (λ b. if b then some k else find d ms) here) ∙ h in
      let at : k.screen_id ≡ d = eqb_ℤ-eq k.screen_id d here in ground arith
  | inr there ↦ find_id d m ms (sym (ap (λ b. if b then some k else find d ms) there) ∙ h)
]

pub find-put_here :
    (n m : ScreenMonitor) (ms : List ScreenMonitor)
    → find n.screen_id ms ≡ some m
    → find n.screen_id (put n ms) ≡ some n
find-put_here n m [] h = ground arith
find-put_here n m (k ∷ ms) h = elim (Bool-cases (eqb_ℤ k.screen_id n.screen_id)) [
  | inl here ↦
      ap (λ b. find n.screen_id (if b then n ∷ ms else k ∷ put n ms)) here
      ∙ ap (λ b. if b then some n else find n.screen_id ms) (eqb_ℤ_refl n.screen_id)
  | inr there ↦
      ap (λ b. find n.screen_id (if b then n ∷ ms else k ∷ put n ms)) there
      ∙ ap (λ b. if b then some k else find n.screen_id (put n ms)) there
      ∙ find-put_here n m ms (sym (ap (λ b. if b then some k else find n.screen_id ms) there) ∙ h)
]

pub find-put_there :
    (d : ℤ) (n : ScreenMonitor) (ms : List ScreenMonitor)
    → eqb_ℤ n.screen_id d ≡ false
    → find d (put n ms) ≡ find d ms
find-put_there d n [] h = refl
find-put_there d n (k ∷ ms) h = elim (Bool-cases (eqb_ℤ k.screen_id n.screen_id)) [
  | inl here ↦
      ap (λ b. find d (if b then n ∷ ms else k ∷ put n ms)) here
      ∙ ap (λ b. if b then some n else find d ms) h
      ∙ sym (
          ap (λ b. if b then some k else find d ms)
            (ap (λ i. eqb_ℤ i d) (eqb_ℤ-eq k.screen_id n.screen_id here) ∙ h))
  | inr there ↦
      ap (λ b. find d (if b then n ∷ ms else k ∷ put n ms)) there
      ∙ ap (λ o. if eqb_ℤ k.screen_id d then some k else o) (find-put_there d n ms h)
]

pub find-append_here :
    (d : ℤ) (ms : List ScreenMonitor)
    → find d ms ≡ none
    → find d (ms ++ (new_monitor d ∷ [])) ≡ some (new_monitor d)
find-append_here d [] h = ap (λ b. if b then some (new_monitor d) else none) (eqb_ℤ_refl d)
find-append_here d (m ∷ ms) h = elim (Bool-cases (eqb_ℤ m.screen_id d)) [
  | inl here ↦ ground (arith, sym (ap (λ b. if b then some m else find d ms) here) ∙ h)
  | inr there ↦
      ap (λ b. if b then some m else find d (ms ++ (new_monitor d ∷ []))) there
      ∙ find-append_here d ms (sym (ap (λ b. if b then some m else find d ms) there) ∙ h)
]

pub find-append_there :
    (d c : ℤ) (ms : List ScreenMonitor)
    → eqb_ℤ c d ≡ false
    → find d (ms ++ (new_monitor c ∷ [])) ≡ find d ms
find-append_there d c [] h = ap (λ b. if b then some (new_monitor c) else none) h
find-append_there d c (m ∷ ms) h =
    ap (λ o. if eqb_ℤ m.screen_id d then some m else o) (find-append_there d c ms h)

-- A change stays with its screen, and tells only of it.
pub record IsLocal (f : ScreenMonitor → List Notice → ScreenMonitor × List Notice) : Type 0 where
  pub keeps_id : (m : ScreenMonitor) (told : List Notice) → (f m told).0.screen_id ≡ m.screen_id
  pub tells_own :
      (d : ℤ) (m : ScreenMonitor) (told : List Notice)
      → eqb_ℤ m.screen_id d ≡ false
      → last_told d (f m told).1 ≡ last_told d told

-- The monitor of a screen and what was told last of it.
abbrev pub View : Type 0
View = Option ScreenMonitor × Option Bool

abbrev pub view : ℤ → ErrorMonitor → View
view d w = (find d w.monitors, last_told d w.told)

abbrev after : ℤ → ScreenMonitor × List Notice → View
after d r = (some r.0, last_told d r.1)

changed_here :
    (d : ℤ) (n m : ScreenMonitor) (told : List Notice) (ms : List ScreenMonitor)
    → n.screen_id ≡ d
    → find d ms ≡ some m
    → view d (changed n told ms) ≡ (some n, last_told d told)
changed_here d n m told ms e h =
    let here : find d (put n ms) ≡ some n =
      subst (λ c. find c ms ≡ some m → find c (put n ms) ≡ some n) e (find-put_here n m ms) h in
    λ i. (here i, last_told d told)

changed_there :
    (d : ℤ) (n : ScreenMonitor) (told old : List Notice) (ms : List ScreenMonitor)
    → eqb_ℤ n.screen_id d ≡ false
    → last_told d told ≡ last_told d old
    → view d (changed n told ms) ≡ (find d ms, last_told d old)
changed_there d n told old ms h k = λ i. (find-put_there d n ms h i, k i)

module _ (f : ScreenMonitor → List Notice → ScreenMonitor × List Notice) where
  on_known-some :
      (c : ℤ) (w : ErrorMonitor) (m : ScreenMonitor)
      → find c w.monitors ≡ some m
      → on_known c f w ≡ changed (f m w.told).0 (f m w.told).1 w.monitors
  unfolding on_known
  on_known-some c w m h =
      ap
        (λ (o : Option ScreenMonitor). elim o [
          | none ↦ w
          | some k ↦ changed (f k w.told).0 (f k w.told).1 w.monitors
        ])
        h

  pub on_known-none : (c : ℤ) (w : ErrorMonitor) → find c w.monitors ≡ none → on_known c f w ≡ w
  unfolding on_known
  on_known-none c w h =
      ap
        (λ (o : Option ScreenMonitor). elim o [
          | none ↦ w
          | some k ↦ changed (f k w.told).0 (f k w.told).1 w.monitors
        ])
        h

module _ (f : ScreenMonitor → List Notice → ScreenMonitor × List Notice) (local : IsLocal f) where
  pub on_known_here :
      (d : ℤ) (w : ErrorMonitor) (m : ScreenMonitor)
      → find d w.monitors ≡ some m
      → view d (on_known d f w) ≡ (some (f m w.told).0, last_told d (f m w.told).1)
  on_known_here d w m h =
      ap (view d) (on_known-some f d w m h)
      ∙ changed_here d (f m w.told).0 m (f m w.told).1 w.monitors
          (local.keeps_id m w.told ∙ find_id d m w.monitors h) h

  pub on_known_there :
      (d c : ℤ) (w : ErrorMonitor) → eqb_ℤ c d ≡ false → view d (on_known c f w) ≡ view d w
  on_known_there d c w h = elim (Option-cases (find c w.monitors)) [
    | inl gone ↦ ap (view d) (on_known-none f c w gone)
    | inr found ↦
        let m = found.0 in
        let id = find_id c m w.monitors found.1 in
        let other = ap (λ i. eqb_ℤ i d) id ∙ h in
        ap (view d) (on_known-some f c w m found.1)
        ∙ changed_there d (f m w.told).0 (f m w.told).1 w.told w.monitors
            (ap (λ i. eqb_ℤ i d) (local.keeps_id m w.told) ∙ other)
            (local.tells_own d m w.told other)
  ]

module _ (f : Bool → ScreenMonitor → List Notice → ScreenMonitor × List Notice)
    (local : (added : Bool) → IsLocal (f added)) where
  changed_by : ScreenMonitor × Bool × List ScreenMonitor → List Notice → ErrorMonitor
  changed_by r told = changed (f r.1 r.0 told).0 (f r.1 r.0 told).1 r.2

  add_screen-some :
      (c : ℤ) (ms : List ScreenMonitor) (m : ScreenMonitor)
      → find c ms ≡ some m
      → add_screen c ms ≡ (m, false, ms)
  unfolding add_screen
  add_screen-some c ms m h =
      ap
        (λ (o : Option ScreenMonitor). elim o as (λ o. ScreenMonitor × Bool × List ScreenMonitor) [
          | none ↦ (new_monitor c, true, ms ++ (new_monitor c ∷ []))
          | some k ↦ (k, false, ms)
        ])
        h

  add_screen-none :
      (c : ℤ) (ms : List ScreenMonitor)
      → find c ms ≡ none
      → add_screen c ms ≡ (new_monitor c, true, ms ++ (new_monitor c ∷ []))
  unfolding add_screen
  add_screen-none c ms h =
      ap
        (λ (o : Option ScreenMonitor). elim o as (λ o. ScreenMonitor × Bool × List ScreenMonitor) [
          | none ↦ (new_monitor c, true, ms ++ (new_monitor c ∷ []))
          | some k ↦ (k, false, ms)
        ])
        h

  pub on_added-some :
      (d : ℤ) (w : ErrorMonitor) (m : ScreenMonitor)
      → find d w.monitors ≡ some m
      → view d (on_added d f w) ≡ (some (f false m w.told).0, last_told d (f false m w.told).1)
  unfolding on_added changed_by
  on_added-some d w m h =
      ap (λ r. view d (changed_by r w.told)) (add_screen-some d w.monitors m h)
      ∙ changed_here d (f false m w.told).0 m (f false m w.told).1 w.monitors
          ((local false).keeps_id m w.told ∙ find_id d m w.monitors h) h

  pub on_added-none :
      (d : ℤ) (w : ErrorMonitor)
      → find d w.monitors ≡ none
      → view d (on_added d f w)
        ≡ (some (f true (new_monitor d) w.told).0, last_told d (f true (new_monitor d) w.told).1)
  unfolding on_added changed_by
  on_added-none d w h =
      let n = new_monitor d in
      ap (λ r. view d (changed_by r w.told)) (add_screen-none d w.monitors h)
      ∙ changed_here d (f true n w.told).0 n (f true n w.told).1 (w.monitors ++ (n ∷ []))
          ((local true).keeps_id n w.told) (find-append_here d w.monitors h)

  pub on_added_there :
      (d c : ℤ) (w : ErrorMonitor) → eqb_ℤ c d ≡ false → view d (on_added c f w) ≡ view d w
  unfolding on_added changed_by
  on_added_there d c w h = elim (Option-cases (find c w.monitors)) [
    | inl gone ↦
        let n = new_monitor c in
        ap (λ r. view d (changed_by r w.told)) (add_screen-none c w.monitors gone)
        ∙ changed_there d (f true n w.told).0 (f true n w.told).1 w.told (w.monitors ++ (n ∷ []))
            (ap (λ i. eqb_ℤ i d) ((local true).keeps_id n w.told) ∙ h)
            ((local true).tells_own d n w.told h)
        ∙ (λ i. (find-append_there d c w.monitors h i, last_told d w.told))
    | inr found ↦
        let m = found.0 in
        let other = ap (λ i. eqb_ℤ i d) (find_id c m w.monitors found.1) ∙ h in
        ap (λ r. view d (changed_by r w.told)) (add_screen-some c w.monitors m found.1)
        ∙ changed_there d (f false m w.told).0 (f false m w.told).1 w.told w.monitors
            (ap (λ i. eqb_ℤ i d) ((local false).keeps_id m w.told) ∙ other)
            ((local false).tells_own d m w.told other)
  ]
