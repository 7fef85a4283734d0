-- ===== src/Core/Owners.antt =====
-- CoreProcess.cpp and CoreManager.cpp, the owners that are there while handlers are polled.
use synergy_hogsback.Prelude.{◌≡◌, Bool, true, false}
use synergy_hogsback.Core.Process.{caught}
use synergy_hogsback.Core.Alive.{Action, exits, History, ends, runs}
use synergy_hogsback.Core.Rules.{Rules}
use synergy_hogsback.Core.Kept.{Kept}

-- Is it the end of the process?
abbrev pub is_exit : Action → Bool
is_exit exits = true
is_exit _ = false

-- A history of handlers that are polled, also by one another: none is the end of the process, and what
-- one throws ends the poll.
unfoldable pub IsCalm : History → Type 0
IsCalm ends = Unit
IsCalm (runs spawns polled caught action rest) =
    IsCalm polled × (is_exit action ≡ false) × (caught ≡ false) × IsCalm rest

-- Calm handlers are polled by every handler of the history.
unfoldable pub PollsCalm : History → Type 0
PollsCalm ends = Unit
PollsCalm (runs spawns polled caught action rest) = IsCalm polled × PollsCalm rest
