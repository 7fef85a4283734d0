-- ===== src/Status/Examples.antt =====
-- CoreStatusMonitor.cpp and CoreManager.cpp on a short run of a client.
use synergy_hogsback.Prelude.{◌≡◌, refl, List, [], ◌∷◌}
use synergy_hogsback.Prelude.Text.{eqb_String}
use synergy_hogsback.Profile.Config.{connected, connecting, disconnected, inactive}
use synergy_hogsback.Core.Process.{client_mode}
use synergy_hogsback.Status.Report.{
  Input, starts, output, run, process_started, monitor, hear_line, update_status, status_changed,
}
use synergy_hogsback.Status.Sequence.{IsSequence, new_reporter, run-IsSequence}

-- Lines that are the texts themselves.
abbrev inputs : List Input
inputs =
    starts client_mode
    ∷ output "suspend"
    ∷ output "connecting to"
    ∷ output "connected to server"
    ∷ output "suspend"
    ∷ []

-- The first suspension is kept back, and so is connecting a second time.
run_test :
    (run eqb_String inputs (new_reporter eqb_String inactive)).told
    ≡ disconnected ∷ connected ∷ connecting ∷ []
unfolding run process_started monitor hear_line update_status status_changed
run_test = refl

run-IsSequence_example :
    IsSequence inactive (run eqb_String inputs (new_reporter eqb_String inactive)).told
run-IsSequence_example = run-IsSequence eqb_String inactive inputs
