-- ===== src/Core/Examples.antt =====
-- The core process of a screen, started, switched and restarted, with what its handlers poll.
use synergy_hogsback.Prelude.{◌≡◌, refl, Bool, true, false, List, [], ◌∷◌, none, some}
use synergy_hogsback.Prelude.Int.{pos, to_int}
use synergy_hogsback.Core.Process.{
  Command, client_mode, CoreProcessImpl, CoreProcess, Event, Outcome, done, core_process, start,
  on_exit, on_retry, launch, start_with, start_built, start_server, start_client, shutdown,
  shutdown_if, shutdown_impl, reset, reset_events, exit_of, expected_exit, retry_with, started,
  terminated, exited, connecting, wrote_configuration, proxied, dangling,
}
use synergy_hogsback.Core.Manager.{
  Commands, switch_server, switch_server_in, follow_server, become_server,
}
use synergy_hogsback.Core.Alive.{
  History, ends, runs, switches, exits, expires, alive_through, is_alive,
}
use synergy_hogsback.Core.History.{run, perform}
use synergy_hogsback.Core.Switching.{running, Runs, IsUndisturbed, asked, start_lem, retry_lem}

abbrev all_start : Command → Bool
all_start k = true

-- Nothing that is polled touches the core process.
abbrev calm : CoreProcess → Outcome
calm c = done c []

abbrev server_command : Command
server_command = "synergy-core" ∷ "--server" ∷ []

abbrev client_command : Command
client_command = "synergy-core" ∷ "--client" ∷ []

abbrev commands : Commands
commands = record { server_cmd = some server_command; client_cmd = some client_command }

-- Server first, then a client of screen 5, once the server's process is gone; while it is told to end,
-- a timer that is not armed expires.
abbrev history : History
history = runs all_start ends true (switches commands (pos 3)) (
    runs all_start (runs all_start ends false expires ends) true (switches commands (pos 5))
      (runs all_start ends false exits ends))

abbrev serving : CoreProcess
serving = record {
  impl = some (running 1 client_command);
  next_command = [];
  last_command = client_command;
  retry = none;
  mode = client_mode;
  current_server_id = pos 5;
  disabled = false;
  made = 2;
}

abbrev told : List Event
told =
    wrote_configuration
    ∷ connecting
    ∷ started server_command
    ∷ proxied (pos 5)
    ∷ terminated
    ∷ exited
    ∷ connecting
    ∷ started client_command
    ∷ []

run_test : run (pos 3) history core_process ≡ done serving told
unfolding run perform core_process switch_server switch_server_in follow_server become_server
    start_server start_client start_built start start_with launch shutdown shutdown_if shutdown_impl
    on_exit exit_of expected_exit reset reset_events to_int on_retry retry_with
run_test = refl

-- The process ends while the handlers are polled that precede `terminate`: its owner is gone by then.
abbrev exit_while_polling : History
exit_while_polling =
    runs all_start ends true (switches commands (pos 3))
      (runs all_start (runs all_start ends false exits ends) true (switches commands (pos 5)) ends)

dangling_test :
    (run (pos 3) exit_while_polling core_process).events
    ≡ wrote_configuration
      ∷ connecting
      ∷ started server_command
      ∷ proxied (pos 5)
      ∷ exited
      ∷ connecting
      ∷ started client_command
      ∷ dangling
      ∷ []
unfolding run perform core_process switch_server switch_server_in follow_server become_server
    start_server start_client start_built start start_with launch shutdown shutdown_if shutdown_impl
    on_exit exit_of expected_exit reset reset_events to_int
dangling_test = refl

alive_test : alive_through false told ≡ some (is_alive serving)
alive_test = refl

start_lem_example :
    (serving.impl ≡ none → Runs server_command (start all_start calm serving server_command))
    × ((i : CoreProcessImpl)
        → serving.impl ≡ some i
        → i.has_process ≡ true
        → IsUndisturbed calm (asked server_command i serving)
        → server_command ≡ server_command
        → Runs server_command
            (on_exit all_start calm (start all_start calm serving server_command).core))
start_lem_example = start_lem all_start calm server_command refl refl serving refl

retry_lem_example :
    Runs client_command (on_retry all_start calm (on_exit all_start calm serving).core)
retry_lem_example =
    retry_lem all_start calm client_command refl refl serving (running 1 client_command) refl refl
      refl refl refl (record { returned = refl; owner = refl; enabled = refl }) refl

-- The id of a server beyond 2 ^ 31 does not come back.
narrow_test : to_int (pos 4294967298) ≡ pos 2
unfolding to_int
narrow_test = refl
