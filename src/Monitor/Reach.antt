-- ===== src/Monitor/Reach.antt =====
-- RouterErrorMonitor.cpp: for each screen a flag and a timer, which tell listeners whether the screen
-- can be reached. What the timer of Boost.Asio does is part of the history.
use synergy_hogsback.Prelude.{
  Bool, true, false, not, ◌&&◌, if◌then◌else◌, List, [], ◌∷◌, ◌++◌, Option, none, some,
}
use synergy_hogsback.Prelude.Int.{ℤ, eqb_ℤ}

-- No wait is pending, the wait goes on, or it is over and its handler is in the queue.
pub data Timer : Type 0 where
  idle : Timer
  waiting : Timer
  due : Timer

pub record ScreenMonitor : Type 0 where
  pub screen_id : ℤ
  pub timer : Timer
  pub reachable : Bool
  pub timer_running : Bool

-- `onReachable` or `onUnreachable` with the id of the screen.
abbrev pub Notice : Type 0
Notice = ℤ × Bool

-- The monitors, and what the listeners were told, the latest first.
pub record ErrorMonitor : Type 0 where
  pub monitors : List ScreenMonitor
  pub told : List Notice

abbrev pub new_monitor : ℤ → ScreenMonitor
new_monitor d = record { screen_id = d; timer = idle; reachable = false; timer_running = false }

abbrev pub set_reachable : Bool → ScreenMonitor → ScreenMonitor
set_reachable value m = record m { reachable = value }

abbrev pub start_timer : ScreenMonitor → ScreenMonitor
start_timer m = record m { timer = waiting; timer_running = true }

abbrev pub notify : ScreenMonitor → List Notice → List Notice
notify m told = (m.screen_id, m.reachable) ∷ told

-- The handler of the timer, and whether it was cancelled.
abbrev pub timer_handler : Bool → ScreenMonitor → List Notice → ScreenMonitor × List Notice
timer_handler cancelled m told =
    let stopped : ScreenMonitor = record m { timer = idle; timer_running = false } in
    (stopped, if cancelled then told else notify stopped told)

abbrev pub cancel_and_poll : Timer → ScreenMonitor → List Notice → ScreenMonitor × List Notice
cancel_and_poll idle m told = (m, told)
cancel_and_poll waiting m told = timer_handler true m told
cancel_and_poll due m told = timer_handler false m told

-- Cancelling aborts a wait that goes on; `poll` then runs the handler that is in the queue.
unfoldable pub stop_timer : ScreenMonitor → List Notice → ScreenMonitor × List Notice
stop_timer m told =
    let stopped = cancel_and_poll m.timer m told in
    if not m.timer_running then (m, told) else stopped

abbrev pub find : ℤ → List ScreenMonitor → Option ScreenMonitor
find d [] = none
find d (m ∷ ms) = let rest = find d ms in if eqb_ℤ m.screen_id d then some m else rest

-- The monitor that `find` answers is replaced.
abbrev pub put : ScreenMonitor → List ScreenMonitor → List ScreenMonitor
put n [] = []
put n (m ∷ ms) = let rest = put n ms in if eqb_ℤ m.screen_id n.screen_id then n ∷ ms else m ∷ rest

-- The monitor of the screen, whether it was added, and the monitors with it.
unfoldable pub add_screen : ℤ → List ScreenMonitor → ScreenMonitor × Bool × List ScreenMonitor
add_screen d ms = elim (find d ms) [
  | none ↦ (new_monitor d, true, ms ++ (new_monitor d ∷ []))
  | some m ↦ (m, false, ms)
]

abbrev pub changed : ScreenMonitor → List Notice → List ScreenMonitor → ErrorMonitor
changed m told ms = record { monitors = put m ms; told = told }

-- A change to the monitor of a screen, if there is one.
unfoldable pub on_known :
    ℤ → (ScreenMonitor → List Notice → ScreenMonitor × List Notice) → ErrorMonitor → ErrorMonitor
on_known d f w = elim (find d w.monitors) [
  | none ↦ w
  | some m ↦ changed (f m w.told).0 (f m w.told).1 w.monitors
]

-- A change to the monitor of a screen, which is added if there is none.
unfoldable pub on_added :
    ℤ
    → (Bool → ScreenMonitor → List Notice → ScreenMonitor × List Notice)
    → ErrorMonitor
    → ErrorMonitor
on_added d f w =
    let r = add_screen d w.monitors in changed (f r.1 r.0 w.told).0 (f r.1 r.0 w.told).1 r.2

abbrev pub start_if_idle : ScreenMonitor → ScreenMonitor
start_if_idle m = let begun = start_timer m in if not m.timer_running then begun else m

abbrev pub when_online : Bool → ScreenMonitor → List Notice → ScreenMonitor × List Notice
when_online added m told =
    let begun = start_timer m in
    let known = start_if_idle m in (if added then begun else known, told)

unfoldable pub screen_online : ℤ → ErrorMonitor → ErrorMonitor
screen_online d w = on_added d when_online w

unfoldable pub screen_offline : ℤ → ErrorMonitor → ErrorMonitor
screen_offline d w = on_known d stop_timer w

abbrev pub when_reachable : Bool → ScreenMonitor → List Notice → ScreenMonitor × List Notice
when_reachable added m told =
    let reached = set_reachable true m in
    let now = notify reached told in
    (reached, if not added && not reached.timer_running then now else told)

unfoldable pub node_reachable : ℤ → ErrorMonitor → ErrorMonitor
node_reachable d w = on_added d when_reachable w

abbrev pub when_unreachable : ScreenMonitor → List Notice → ScreenMonitor × List Notice
when_unreachable m told = (start_if_idle (set_reachable false m), told)

unfoldable pub node_unreachable : ℤ → ErrorMonitor → ErrorMonitor
node_unreachable d w = on_known d when_unreachable w

abbrev pub expire : Timer → Timer
expire waiting = due
expire idle = idle
expire due = due

abbrev pub when_expired : ScreenMonitor → List Notice → ScreenMonitor × List Notice
when_expired m told = (record m { timer = expire m.timer }, told)

-- Three seconds have passed.
unfoldable pub timer_expires : ℤ → ErrorMonitor → ErrorMonitor
timer_expires d w = on_known d when_expired w

abbrev pub fire : Timer → ScreenMonitor → List Notice → ScreenMonitor × List Notice
fire due m told = timer_handler false m told
fire idle m told = (m, told)
fire waiting m told = (m, told)

abbrev pub when_fired : ScreenMonitor → List Notice → ScreenMonitor × List Notice
when_fired m told = fire m.timer m told

-- The handler of a timer that expired runs.
unfoldable pub timer_fires : ℤ → ErrorMonitor → ErrorMonitor
timer_fires d w = on_known d when_fired w

-- What the monitor hears, and the two steps of a timer.
pub data Input : Type 0 where
  online : ℤ → Input
  offline : ℤ → Input
  reachable_node : ℤ → Input
  unreachable_node : ℤ → Input
  expires : ℤ → Input
  fires : ℤ → Input

abbrev pub hear : Input → ErrorMonitor → ErrorMonitor
hear (online d) w = screen_online d w
hear (offline d) w = screen_offline d w
hear (reachable_node d) w = node_reachable d w
hear (unreachable_node d) w = node_unreachable d w
hear (expires d) w = timer_expires d w
hear (fires d) w = timer_fires d w

abbrev pub started : ErrorMonitor
started = record { monitors = []; told = [] }

unfoldable pub run : List Input → ErrorMonitor → ErrorMonitor
run [] w = w
run (i ∷ more) w = run more (hear i w)
