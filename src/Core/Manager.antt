-- ===== src/Core/Manager.antt =====
-- CoreManager.cpp: which screen is the server. The commands that the process builder makes are
-- arguments, as in `Core.Process`; `screen_id` is the id of this computer.
use synergy_hogsback.Prelude.{Bool, true, false, not, if◌then◌else◌, [], ◌∷◌, Option}
use synergy_hogsback.Prelude.Int.{ℤ, eqb_ℤ, to_int}
use synergy_hogsback.Core.Process.{
  Command, ProcessMode, server_mode, client_mode, unknown_mode, CoreProcess, proxied, claimed,
  Outcome, done, behind, shutdown, start_server, start_client,
}

-- What `serverCmd` and `clientCmd` give.
pub record Commands : Type 0 where
  pub server_cmd : Option Command
  pub client_cmd : Option Command

-- One call after another that did not throw.
infixl 5 ◌>>◌
abbrev pub ◌>>◌ : Outcome → (CoreProcess → Outcome) → Outcome
out >> f = if out.threw then out else behind out.events (f out.core)

-- `CoreManager::pause`
unfoldable pub pause : (CoreProcess → Outcome) → CoreProcess → Outcome
pause poll c = shutdown poll (record c { disabled = true })

module _ (spawns : Command → Bool) (poll : CoreProcess → Outcome) (screen_id : ℤ)
    (commands : Commands) where
  -- `m_serverProxy.start (serverId); m_process->startClient (serverId);`; the second takes an `int`.
  unfoldable pub follow_server : ℤ → CoreProcess → Outcome
  follow_server server_id c =
      behind (proxied server_id ∷ [])
        (start_client spawns poll (to_int server_id) commands.client_cmd c)

  unfoldable pub become_server : CoreProcess → Outcome
  become_server c = start_server spawns poll screen_id commands.server_cmd c

  -- `CoreManager::switchServer`, by the mode of the process.
  unfoldable pub switch_server_in : ProcessMode → ℤ → CoreProcess → Outcome
  switch_server_in server_mode server_id c =
      if not (eqb_ℤ screen_id server_id) then follow_server server_id c else done c []
  switch_server_in client_mode server_id c =
      if eqb_ℤ screen_id server_id then become_server c else follow_server server_id c
  switch_server_in unknown_mode server_id c =
      if eqb_ℤ screen_id server_id then become_server c else follow_server server_id c

  unfoldable pub switch_server : ℤ → CoreProcess → Outcome
  switch_server server_id c = switch_server_in c.mode server_id c

  -- The `localInputDetected` handler.
  unfoldable pub on_local_input : CoreProcess → Outcome
  on_local_input c = switch_server screen_id c >> λ after. done after (claimed screen_id ∷ [])

  -- `ClaimMessageHandler::handle` for a server claim; the ids of the profiles are compared first.
  unfoldable pub on_claim : ℤ → ℤ → ℤ → CoreProcess → Outcome
  on_claim profile_id claimed_profile server_id c =
      if not (eqb_ℤ claimed_profile profile_id) then done c [] else switch_server server_id c

  -- `CoreManager::restart`, by the mode of the process.
  unfoldable pub restart_in : ProcessMode → CoreProcess → Outcome
  restart_in unknown_mode c = done c []
  restart_in server_mode c = become_server c
  restart_in client_mode c = start_client spawns poll c.current_server_id commands.client_cmd c

  unfoldable pub restart : CoreProcess → Outcome
  restart c = restart_in c.mode c

  -- `CoreManager::resume`, and the first posted handler of `screenSetChanged` if this screen was added.
  unfoldable pub resume : CoreProcess → Outcome
  resume c = restart (record c { disabled = false })

  unfoldable pub restart_server_in : ProcessMode → CoreProcess → Outcome
  restart_server_in server_mode c = become_server c >> λ after. done after (claimed screen_id ∷ [])
  restart_server_in client_mode c = done c []
  restart_server_in unknown_mode c = done c []

  -- The posted handler of `screenPositionChanged`, and the second one of `screenSetChanged`.
  unfoldable pub on_layout_change : CoreProcess → Outcome
  on_layout_change c = restart_server_in c.mode c
