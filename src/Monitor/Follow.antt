-- ===== src/Monitor/Follow.antt =====
-- RouterErrorMonitor.cpp: what the listeners know of a screen.
use mathlib.Core.Path.{subst}
use synergy_hogsback.Prelude.{
  Bool, true, false, ◌≡◌, refl, ap, sym, ◌∙◌, ◌⊎◌, if◌then◌else◌, List, [], ◌∷◌, none, some, arith,
  Bool-cases, Option-cases, inl, inr,
}
use synergy_hogsback.Prelude.Int.{ℤ, eqb_ℤ, eqb_ℤ-eq}
use synergy_hogsback.Monitor.Reach.{
  Timer, idle, waiting, due, ScreenMonitor, ErrorMonitor, find, Input, online, offline,
  reachable_node, unreachable_node, expires, fires, run, started, stop_timer, when_online,
  when_reachable, when_unreachable, when_expired, when_fired, screen_online, screen_offline,
  node_reachable, node_unreachable, timer_expires, timer_fires, expire,
}
use synergy_hogsback.Monitor.Views.{
  last_told, last_told_here, last_told_there, IsLocal, View, view, find_id, on_known_here,
  on_known-none, on_known_there, on_added-some, on_added-none, on_added_there,
}

-- A wait is pending, or its handler is.
abbrev pub is_pending : Timer → Bool
is_pending idle = false
is_pending waiting = true
is_pending due = true

-- The router's last word on the screen, which is no at first.
pub last_word : ℤ → Bool → List Input → Bool
last_word d word [] = word
last_word d word (reachable_node c ∷ more) = last_word d (if eqb_ℤ c d then true else word) more
last_word d word (unreachable_node c ∷ more) = last_word d (if eqb_ℤ c d then false else word) more
last_word d word (i ∷ more) = last_word d word more

-- The screen does not go offline in the profile.
unfoldable pub StaysOnline : ℤ → List Input → Type 0
StaysOnline d [] = Unit
StaysOnline d (offline c ∷ more) = (eqb_ℤ c d ≡ false) × StaysOnline d more
StaysOnline d (i ∷ more) = StaysOnline d more

-- The flag is the router's last word, a timer runs exactly if a wait is pending, and with none the
-- listeners know the last word or have heard nothing.
pub Agrees : Bool → View → Type 0
Agrees word (none, t) = (word ≡ false) × (t ≡ none)
Agrees word (some m, t) =
    (m.reachable ≡ word)
    × (m.timer_running ≡ is_pending m.timer)
    × ((m.timer_running ≡ true) ⊎ (t ≡ none) ⊎ (t ≡ some word))

online-IsLocal : (added : Bool) → IsLocal (when_online added)
online-IsLocal true = record { keeps_id = λ m told. refl; tells_own = λ d m told h. refl }
online-IsLocal false = record { keeps_id = λ m told. ground arith; tells_own = λ d m told h. refl }

reachable-IsLocal : (added : Bool) → IsLocal (when_reachable added)
reachable-IsLocal true = record { keeps_id = λ m told. refl; tells_own = λ d m told h. refl }
reachable-IsLocal false = record {
  keeps_id = λ m told. refl;
  tells_own = λ d m told h. ground (arith, last_told_there d m.screen_id true told h);
}

unreachable-IsLocal : IsLocal when_unreachable
unreachable-IsLocal = record { keeps_id = λ m told. ground arith; tells_own = λ d m told h. refl }

expired-IsLocal : IsLocal when_expired
expired-IsLocal = record { keeps_id = λ m told. refl; tells_own = λ d m told h. refl }

fired-IsLocal : IsLocal when_fired
fired-IsLocal = record {
  keeps_id = λ m told. ground arith;
  tells_own = λ d m told h. ground (arith, last_told_there d m.screen_id m.reachable told h);
}

stopped-IsLocal : IsLocal stop_timer
unfolding stop_timer
stopped-IsLocal = record {
  keeps_id = λ m told. ground arith;
  tells_own = λ d m told h. ground (arith, last_told_there d m.screen_id m.reachable told h);
}

module _ (d : ℤ) (word : Bool) (w : ErrorMonitor) (h : Agrees word (view d w)) where
  known_view :
      (m : ScreenMonitor) → find d w.monitors ≡ some m → Agrees word (some m, last_told d w.told)
  known_view m e = subst (λ o. Agrees word (o, last_told d w.told)) e h

  unknown_view : find d w.monitors ≡ none → Agrees word (none, last_told d w.told)
  unknown_view e = subst (λ o. Agrees word (o, last_told d w.told)) e h

  own :
      (m : ScreenMonitor) (b : Bool)
      → find d w.monitors ≡ some m
      → last_told d ((m.screen_id, b) ∷ w.told) ≡ some b
  own m b e =
      ap (λ c. last_told d ((c, b) ∷ w.told)) (find_id d m w.monitors e) ∙ last_told_here d b w.told

  online_here : Agrees word (view d (screen_online d w))
  unfolding screen_online Agrees
  online_here = elim (Option-cases (find d w.monitors)) [
    | inl gone ↦
        subst (Agrees word) (sym (on_added-none when_online online-IsLocal d w gone))
          (sym (unknown_view gone).0, refl, inl refl)
    | inr found ↦
        let m = found.0 in
        let k = known_view m found.1 in
        subst (Agrees word) (sym (on_added-some when_online online-IsLocal d w m found.1))
          (ground (arith, k.0, k.1, k.2))
  ]

  reachable_here : Agrees true (view d (node_reachable d w))
  unfolding node_reachable Agrees
  reachable_here = elim (Option-cases (find d w.monitors)) [
    | inl gone ↦
        subst (Agrees true) (sym (on_added-none when_reachable reachable-IsLocal d w gone))
          (refl, refl, inr (inl (unknown_view gone).1))
    | inr found ↦
        let m = found.0 in
        let k = known_view m found.1 in
        subst (Agrees true) (sym (on_added-some when_reachable reachable-IsLocal d w m found.1))
          (ground (arith, k.0, k.1, k.2, own m true found.1))
  ]

  unreachable_here : Agrees false (view d (node_unreachable d w))
  unfolding node_unreachable Agrees
  unreachable_here = elim (Option-cases (find d w.monitors)) [
    | inl gone ↦
        subst (λ (u : ErrorMonitor). Agrees false (view d u))
          (sym (on_known-none when_unreachable d w gone))
          (subst (λ o. Agrees false (o, last_told d w.told)) (sym gone)
            (refl, (unknown_view gone).1))
    | inr found ↦
        let m = found.0 in
        let k = known_view m found.1 in
        subst (Agrees false)
          (sym (on_known_here when_unreachable unreachable-IsLocal d w m found.1))
          (ground (arith, k.0, k.1, k.2))
  ]

  expires_here : Agrees word (view d (timer_expires d w))
  unfolding timer_expires Agrees
  expires_here = elim (Option-cases (find d w.monitors)) [
    | inl gone ↦
        subst (λ (u : ErrorMonitor). Agrees word (view d u))
          (sym (on_known-none when_expired d w gone)) h
    | inr found ↦
        let m = found.0 in
        let k = known_view m found.1 in
        subst (Agrees word) (sym (on_known_here when_expired expired-IsLocal d w m found.1))
          (k.0, k.1 ∙ still_pending m.timer, k.2)
  ]
    where
      still_pending : (t : Timer) → is_pending t ≡ is_pending (expire t)
      still_pending idle = refl
      still_pending waiting = refl
      still_pending due = refl

  fires_here : Agrees word (view d (timer_fires d w))
  unfolding timer_fires Agrees
  fires_here = elim (Option-cases (find d w.monitors)) [
    | inl gone ↦
        subst (λ (u : ErrorMonitor). Agrees word (view d u))
          (sym (on_known-none when_fired d w gone)) h
    | inr found ↦
        let m = found.0 in
        let k = known_view m found.1 in
        subst (Agrees word) (sym (on_known_here when_fired fired-IsLocal d w m found.1))
          (ground (arith, k.0, k.1, k.2, own m m.reachable found.1))
  ]

-- A step for the screen, or for another one, whose view it leaves alone.
here_or_there :
    (step : ℤ → ErrorMonitor → ErrorMonitor) (d c : ℤ) (old new : Bool) (w : ErrorMonitor)
    → (eqb_ℤ c d ≡ false → view d (step c w) ≡ view d w)
    → Agrees old (view d w)
    → Agrees new (view d (step d w))
    → Agrees (if eqb_ℤ c d then new else old) (view d (step c w))
here_or_there step d c old new w apart h k = elim (Bool-cases (eqb_ℤ c d)) [
  | inl same ↦
      subst (λ b. Agrees (if b then new else old) (view d (step c w))) (sym same)
        (subst (λ e. Agrees new (view d (step e w))) (sym (eqb_ℤ-eq c d same)) k)
  | inr other ↦
      subst (λ b. Agrees (if b then new else old) (view d (step c w))) (sym other)
        (subst (Agrees old) (sym (apart other)) h)
]

if_same : (b c : Bool) → (if b then c else c) ≡ c
if_same true c = refl
if_same false c = refl

-- The same, for a step that leaves the router's word as it was.
same_word :
    (step : ℤ → ErrorMonitor → ErrorMonitor) (d c : ℤ) (word : Bool) (w : ErrorMonitor)
    → (eqb_ℤ c d ≡ false → view d (step c w) ≡ view d w)
    → Agrees word (view d w)
    → Agrees word (view d (step d w))
    → Agrees word (view d (step c w))
same_word step d c word w apart h k =
    subst (λ b. Agrees b (view d (step c w))) (if_same (eqb_ℤ c d) word)
      (here_or_there step d c word word w apart h k)

run_on-Agrees :
    (d : ℤ) (word : Bool) (inputs : List Input) (w : ErrorMonitor)
    → StaysOnline d inputs
    → Agrees word (view d w)
    → Agrees (last_word d word inputs) (view d (run inputs w))
unfolding run last_word StaysOnline screen_online screen_offline node_reachable node_unreachable
    timer_expires timer_fires
run_on-Agrees d word [] w o h = h
run_on-Agrees d word (online c ∷ more) w o h = run_on-Agrees d word more (screen_online c w) o (
    same_word screen_online d c word w (on_added_there when_online online-IsLocal d c w) h
      (online_here d word w h))
run_on-Agrees d word (offline c ∷ more) w o h =
    run_on-Agrees d word more (screen_offline c w) o.1
      (subst (Agrees word) (sym (on_known_there stop_timer stopped-IsLocal d c w o.0)) h)
run_on-Agrees d word (reachable_node c ∷ more) w o h =
    run_on-Agrees d (if eqb_ℤ c d then true else word) more (node_reachable c w) o (
      here_or_there node_reachable d c word true w
        (on_added_there when_reachable reachable-IsLocal d c w) h (reachable_here d word w h))
run_on-Agrees d word (unreachable_node c ∷ more) w o h =
    run_on-Agrees d (if eqb_ℤ c d then false else word) more (node_unreachable c w) o (
      here_or_there node_unreachable d c word false w
        (on_known_there when_unreachable unreachable-IsLocal d c w) h (unreachable_here d word w h))
run_on-Agrees d word (expires c ∷ more) w o h = run_on-Agrees d word more (timer_expires c w) o (
    same_word timer_expires d c word w (on_known_there when_expired expired-IsLocal d c w) h
      (expires_here d word w h))
run_on-Agrees d word (fires c ∷ more) w o h = run_on-Agrees d word more (timer_fires c w) o (
    same_word timer_fires d c word w (on_known_there when_fired fired-IsLocal d c w) h
      (fires_here d word w h))

-- Over any history in which a screen does not go offline in the profile, its flag is the router's last
-- word, its timer runs exactly if a wait is pending, and when none is, the listeners were last told
-- the router's last word, or nothing at all.
pub run-Agrees :
    (d : ℤ) (inputs : List Input)
    → StaysOnline d inputs
    → Agrees (last_word d false inputs) (view d (run inputs started))
unfolding Agrees last_told
run-Agrees d inputs o = run_on-Agrees d false inputs started o (refl, refl)
