-- ===== src/Monitor/Examples.antt =====
-- RouterErrorMonitor.cpp on short histories of two screens.
use synergy_hogsback.Prelude.{true, false, ◌≡◌, refl, List, [], ◌∷◌}
use synergy_hogsback.Prelude.Int.{pos}
use synergy_hogsback.Monitor.Reach.{
  Input, online, offline, reachable_node, unreachable_node, expires, fires, run, started,
  stop_timer, screen_online, screen_offline, node_reachable, node_unreachable, timer_expires,
  timer_fires, on_known, on_added, add_screen, Notice,
}
use synergy_hogsback.Monitor.Views.{view}
use synergy_hogsback.Monitor.Follow.{Agrees, last_word, run-Agrees, StaysOnline}

-- Screen 3 comes online, is reached and its timer ends; it is lost, and comes back in time.
abbrev history : List Input
history =
    online (pos 3)
    ∷ reachable_node (pos 3)
    ∷ expires (pos 3)
    ∷ fires (pos 3)
    ∷ unreachable_node (pos 3)
    ∷ reachable_node (pos 5)
    ∷ reachable_node (pos 3)
    ∷ expires (pos 3)
    ∷ fires (pos 3)
    ∷ []

abbrev told_after : List Input → List Notice
told_after inputs = (run inputs started).told

run_test : told_after history ≡ (pos 3, true) ∷ (pos 3, true) ∷ []
unfolding run screen_online node_reachable node_unreachable timer_expires timer_fires on_known
    on_added add_screen
run_test = refl

-- A screen that goes offline while its timer waits is told nothing of, and its flag may have changed.
offline_test :
    told_after (
      reachable_node (pos 3)
      ∷ unreachable_node (pos 3)
      ∷ offline (pos 3)
      ∷ expires (pos 3)
      ∷ fires (pos 3)
      ∷ [])
    ≡ []
unfolding run screen_online screen_offline node_reachable node_unreachable timer_expires timer_fires
    on_known on_added add_screen stop_timer
offline_test = refl

history-StaysOnline : StaysOnline (pos 3) history
unfolding StaysOnline
history-StaysOnline = tt

run-Agrees_example : Agrees (last_word (pos 3) false history) (view (pos 3) (run history started))
run-Agrees_example = run-Agrees (pos 3) history history-StaysOnline
