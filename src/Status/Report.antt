-- ===== src/Status/Report.antt =====
-- CoreStatusMonitor.cpp, and the handler of `screenStatusChanged` in CoreManager.cpp. Whether a line
-- contains a text is a parameter.
use Prim.Native.String.{String}
use synergy_hogsback.Prelude.{◌==◌, Bool, not, ◌&&◌, if◌then◌else◌, List, [], ◌∷◌}
use synergy_hogsback.Profile.Config.{
  ScreenStatus, connected, connecting, disconnected, status_index,
}
use synergy_hogsback.Core.Process.{ProcessMode, client_mode, server_mode, unknown_mode}

-- A text, and the status that a line with it tells.
abbrev pub Handler : Type 0
Handler = String × ScreenStatus

-- The handlers of the output. Each is connected in front of the ones before.
abbrev pub handlers : ProcessMode → List Handler
handlers client_mode =
    ("suspend", disconnected)
    ∷ ("connecting to", connecting)
    ∷ ("connected to server", connected)
    ∷ []
handlers server_mode = ("started server, waiting for clients", connected) ∷ []
handlers unknown_mode = []

-- The handlers that are connected, the status of the local screen in the monitor and in the profile,
-- and what the cloud was told, the latest first. A status that is not in the monitor's map yet is the
-- first one of the enumeration.
pub record Reporter : Type 0 where
  pub signals : List Handler
  pub screen_state : ScreenStatus
  pub profile_status : ScreenStatus
  pub told : List ScreenStatus

abbrev pub same_status : ScreenStatus → ScreenStatus → Bool
same_status a b = status_index a == status_index b

-- The handler of CoreManager.
unfoldable pub status_changed : ScreenStatus → Reporter → Reporter
status_changed status r =
    let sent : Reporter = record r { profile_status = status; told = status ∷ r.told } in
    if same_status r.profile_status status && same_status status connecting
    then r
    else (if same_status status disconnected && not (same_status r.profile_status connected)
        then r
        else sent)

unfoldable pub update_status : ScreenStatus → Reporter → Reporter
update_status status r =
    let kept : Reporter = record r { screen_state = status } in
    let changed = status_changed status kept in
    if not (same_status status r.screen_state) then changed else kept

-- Old handlers go, and those of the mode come.
unfoldable pub monitor : ProcessMode → Reporter → Reporter
monitor mode r = record r { signals = handlers mode }

-- The process is started.
unfoldable pub process_started : ProcessMode → Reporter → Reporter
process_started mode r = monitor mode (update_status connecting r)

pub data Input : Type 0 where
  starts : ProcessMode → Input
  output : String → Input

module _ (includes : String → String → Bool) where
  -- Each handler looks for its text.
  unfoldable pub hear_line : String → List Handler → Reporter → Reporter
  hear_line line [] r = r
  hear_line line (h ∷ hs) r =
      hear_line line hs (if not (includes line h.0) then r else update_status h.1 r)

  unfoldable pub run : List Input → Reporter → Reporter
  run [] r = r
  run (starts mode ∷ more) r = run more (process_started mode r)
  run (output line ∷ more) r = run more (hear_line line r.signals r)
