-- ===== src/Core/History.antt =====
-- CoreProcess.cpp and CoreManager.cpp, any history of the core process, with what its handlers poll.
use synergy_hogsback.Prelude.{Bool, not, ◌&&◌, ◌||◌, if◌then◌else◌, []}
use synergy_hogsback.Prelude.Int.{ℤ}
use synergy_hogsback.Core.Process.{
  Command, CoreProcess, Outcome, uses_dangling, done, behind, on_exit, on_retry,
}
use synergy_hogsback.Core.Manager.{
  switch_server, on_local_input, restart, pause, resume, on_layout_change,
}
use synergy_hogsback.Core.Alive.{
  Action, switches, detects_input, changes_layout, pauses, resumes, restarts, exits, expires,
  History, ends, runs,
}

module _ (screen_id : ℤ) where
  -- A handler, with the handlers that it polls.
  unfoldable pub perform :
      (Command → Bool) → (CoreProcess → Outcome) → CoreProcess → Action → Outcome
  perform spawns poll c (switches k server_id) = switch_server spawns poll screen_id k server_id c
  perform spawns poll c (detects_input k) = on_local_input spawns poll screen_id k c
  perform spawns poll c (changes_layout k) = on_layout_change spawns poll screen_id k c
  perform spawns poll c pauses = pause poll c
  perform spawns poll c (resumes k) = resume spawns poll screen_id k c
  perform spawns poll c (restarts k) = restart spawns poll screen_id k c
  perform spawns poll c exits = on_exit spawns poll c
  perform spawns poll c expires = on_retry spawns poll c

  -- What one handler throws ends the loop that runs the handlers, unless its caller catches it; the use
  -- of an owner that is gone ends everything.
  unfoldable pub run : History → CoreProcess → Outcome
  run ends c = done c []
  run (runs spawns polled caught action rest) c =
      let out = perform spawns (run polled) c action in
      let later = behind out.events (run rest out.core) in
      if out.threw && (not caught || uses_dangling out) then out else later
