-- ===== src/Core/Lives.antt =====
-- CoreProcess.cpp and CoreManager.cpp, the processes of any history.
use synergy_hogsback.Core.Process.{CoreProcess, Outcome}
use synergy_hogsback.Core.Alive.{History, is_alive, Told}
use synergy_hogsback.Core.Rules.{Rules}

abbrev IsTold : CoreProcess → Outcome → Type 0
IsTold c out = Told (is_alive c) out
