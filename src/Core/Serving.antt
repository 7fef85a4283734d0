-- ===== src/Core/Serving.antt =====
-- CoreManager.cpp and CoreProcess.cpp, the mode and the server after a switch.
use synergy_hogsback.Prelude.{◌≡◌, Bool, if◌then◌else◌}
use synergy_hogsback.Prelude.Int.{ℤ, eqb_ℤ}
use synergy_hogsback.Core.Process.{
  Command, ProcessMode, server_mode, client_mode, CoreProcess, Outcome,
}
use synergy_hogsback.Core.Manager.{Commands}

-- The mode, and the server, that a call leaves.
abbrev pub Serves : ProcessMode → ℤ → Outcome → Type 0
Serves m server_id out = (out.core.mode ≡ m) × (out.core.current_server_id ≡ server_id)

-- The handlers that are polled leave the mode and the server as they are.
abbrev pub KeepsServer : (CoreProcess → Outcome) → Type 0
KeepsServer poll = (c : CoreProcess) → Serves c.mode c.current_server_id (poll c)

module _ (spawns : Command → Bool) (poll : CoreProcess → Outcome) (screen_id : ℤ)
    (commands : Commands) where
  -- The mode that fits a server.
  abbrev pub mode_for : ℤ → ProcessMode
  mode_for server_id = if eqb_ℤ screen_id server_id then server_mode else client_mode
