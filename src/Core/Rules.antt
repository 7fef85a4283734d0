-- ===== src/Core/Rules.antt =====
-- CoreProcess.cpp and CoreManager.cpp: what the parts of a call keep, each call keeps.
use synergy_hogsback.Prelude.{
  ◌≡◌, refl, Bool, true, false, not, [], ◌∷◌, Option, none, some, if-cases,
}
use synergy_hogsback.Prelude.Int.{ℤ, eqb_ℤ, to_int}
use synergy_hogsback.Core.Process.{
  Command, ProcessMode, server_mode, client_mode, unknown_mode, CoreProcessImpl, CoreProcess, Event,
  wrote_configuration, proxied, claimed, Outcome, done, behind, shutdown, caught, launch,
  start_with, start, start_built, start_server, start_client, retry_with, on_retry,
}
use synergy_hogsback.Core.Manager.{
  Commands, ◌>>◌, pause, follow_server, become_server, switch_server, switch_server_in,
  on_local_input, restart, restart_in, resume, restart_server_in, on_layout_change,
}
use synergy_hogsback.Core.Alive.{
  alive_after, IsQuiet, Action, switches, detects_input, changes_layout, pauses, resumes, restarts,
  exits, expires,
}
use synergy_hogsback.Core.History.{perform}

-- A relation between the state before a call and its outcome that the parts of a call keep. It looks at
-- nothing but the owner of the state before.
pub record Rules (spawns : Command → Bool) (poll : CoreProcess → Outcome)
    (P : CoreProcess → Outcome → Type 0) : Type 0 where
  pub nothing : (c : CoreProcess) → P c (done c [])
  pub throws : (c : CoreProcess) → P c (record { core = c; events = []; threw = true })
  pub quietly :
      (c : CoreProcess) (e : Event) (out : Outcome)
      → IsQuiet e
      → P c out
      → P c (behind (e ∷ []) out)
  pub catches : (c : CoreProcess) (out : Outcome) → P c out → P c (caught out)
  pub claims :
      (c : CoreProcess) (n : ℤ) (out : Outcome)
      → P c out
      → P c (out >> λ after. done after (claimed n ∷ []))
  pub shuts : (c : CoreProcess) → P c (shutdown poll c)
  pub launches : (c : CoreProcess) (k : Command) → c.impl ≡ none → P c (launch spawns poll c k)
  pub moves : (c d : CoreProcess) (out : Outcome) → c.impl ≡ d.impl → P c out → P d out

module _ (spawns : Command → Bool) (poll : CoreProcess → Outcome)
    (P : CoreProcess → Outcome → Type 0) (rules : Rules spawns poll P) where
  start_with-Rules :
      (c : CoreProcess) (k : Command) (impl : Option CoreProcessImpl)
      → c.impl ≡ impl
      → P c (start_with spawns poll c k impl)
  unfolding start_with
  start_with-Rules c k none e = rules.launches c k e
  start_with-Rules c k (some i) e =
      rules.moves (record c { next_command = k }) c _ refl
        (rules.shuts (record c { next_command = k }))

  pub start-Rules : (c : CoreProcess) (k : Command) → P c (start spawns poll c k)
  unfolding start
  start-Rules c k =
      if-cases (P c) c.disabled (λ off. rules.nothing c)
        (λ on.
          rules.moves (record c { retry = none }) c _ refl
            (start_with-Rules (record c { retry = none }) k c.impl refl))

  start_built-Rules : (c : CoreProcess) (k : Option Command) → P c (start_built spawns poll c k)
  unfolding start_built
  start_built-Rules c none = rules.throws c
  start_built-Rules c (some k) = start-Rules c k

  start_server-Rules :
      (screen_id : ℤ) (k : Option Command) (c : CoreProcess)
      → P c (start_server spawns poll screen_id k c)
  unfolding start_server
  start_server-Rules screen_id k c =
      let ready : CoreProcess = record c {
        mode = server_mode;
        current_server_id = to_int screen_id;
      } in
      if-cases (P c) c.disabled (λ off. rules.nothing c)
        (λ on.
          rules.quietly c wrote_configuration _ (λ b. quiet b, refl)
            (rules.catches c _ (rules.moves ready c _ refl (start_built-Rules ready k))))
    where
      quiet : (alive : Bool) → alive_after alive wrote_configuration ≡ some alive
      quiet true = refl
      quiet false = refl

  start_client-Rules :
      (server_id : ℤ) (k : Option Command) (c : CoreProcess)
      → P c (start_client spawns poll server_id k c)
  unfolding start_client
  start_client-Rules server_id k c =
      let ready : CoreProcess = record c { mode = client_mode; current_server_id = server_id } in
      if-cases (P c) c.disabled (λ off. rules.nothing c)
        (λ on. rules.catches c _ (rules.moves ready c _ refl (start_built-Rules ready k)))

  retry_with-Rules : (c : CoreProcess) (k : Option Command) → P c (retry_with spawns poll c k)
  unfolding retry_with
  retry_with-Rules c none = rules.nothing c
  retry_with-Rules c (some k) =
      rules.moves (record c { retry = none }) c _ refl (start-Rules (record c { retry = none }) k)

  module _ (screen_id : ℤ) (commands : Commands) where
    follow_server-Rules :
        (server_id : ℤ) (c : CoreProcess)
        → P c (follow_server spawns poll screen_id commands server_id c)
    unfolding follow_server
    follow_server-Rules server_id c =
        rules.quietly c (proxied server_id) _ (λ b. quiet b, refl)
          (start_client-Rules (to_int server_id) commands.client_cmd c)
      where
        quiet : (alive : Bool) → alive_after alive (proxied server_id) ≡ some alive
        quiet true = refl
        quiet false = refl

    become_server-Rules : (c : CoreProcess) → P c (become_server spawns poll screen_id commands c)
    unfolding become_server
    become_server-Rules c = start_server-Rules screen_id commands.server_cmd c

    switch_server-Rules :
        (server_id : ℤ) (c : CoreProcess)
        → P c (switch_server spawns poll screen_id commands server_id c)
    unfolding switch_server
    switch_server-Rules server_id c = by_mode c.mode
      where
        by_mode :
            (m : ProcessMode) → P c (switch_server_in spawns poll screen_id commands m server_id c)
        by_mode server_mode =
            unfold switch_server_in in
            if-cases (P c) (not (eqb_ℤ screen_id server_id)) (λ _. follow_server-Rules server_id c)
              (λ _. rules.nothing c)
        by_mode client_mode =
            unfold switch_server_in in
            if-cases (P c) (eqb_ℤ screen_id server_id) (λ _. become_server-Rules c)
              (λ _. follow_server-Rules server_id c)
        by_mode unknown_mode =
            unfold switch_server_in in
            if-cases (P c) (eqb_ℤ screen_id server_id) (λ _. become_server-Rules c)
              (λ _. follow_server-Rules server_id c)

    restart-Rules : (c : CoreProcess) → P c (restart spawns poll screen_id commands c)
    unfolding restart
    restart-Rules c = by_mode c.mode
      where
        by_mode : (m : ProcessMode) → P c (restart_in spawns poll screen_id commands m c)
        by_mode server_mode = unfold restart_in in become_server-Rules c
        by_mode client_mode =
            unfold restart_in in start_client-Rules c.current_server_id commands.client_cmd c
        by_mode unknown_mode = unfold restart_in in rules.nothing c

    on_layout_change-Rules :
        (c : CoreProcess) → P c (on_layout_change spawns poll screen_id commands c)
    unfolding on_layout_change
    on_layout_change-Rules c = by_mode c.mode
      where
        by_mode : (m : ProcessMode) → P c (restart_server_in spawns poll screen_id commands m c)
        by_mode server_mode =
            unfold restart_server_in in rules.claims c screen_id _ (become_server-Rules c)
        by_mode client_mode = unfold restart_server_in in rules.nothing c
        by_mode unknown_mode = unfold restart_server_in in rules.nothing c

  -- All handlers but the one of an exit.
  pub perform-Rules :
      (screen_id : ℤ) (c : CoreProcess) (a : Action)
      → (a ≡ exits → P c (perform screen_id spawns poll c exits))
      → P c (perform screen_id spawns poll c a)
  unfolding perform
  perform-Rules screen_id c (switches k n) h = switch_server-Rules screen_id k n c
  perform-Rules screen_id c (detects_input k) h =
      unfold on_local_input in
      rules.claims c screen_id _ (switch_server-Rules screen_id k screen_id c)
  perform-Rules screen_id c (changes_layout k) h = on_layout_change-Rules screen_id k c
  perform-Rules screen_id c pauses h =
      unfold pause in
      rules.moves (record c { disabled = true }) c _ refl
        (rules.shuts (record c { disabled = true }))
  perform-Rules screen_id c (resumes k) h =
      unfold resume in
      rules.moves (record c { disabled = false }) c _ refl
        (restart-Rules screen_id k (record c { disabled = false }))
  perform-Rules screen_id c (restarts k) h = restart-Rules screen_id k c
  perform-Rules screen_id c exits h = h refl
  perform-Rules screen_id c expires h = unfold on_retry in retry_with-Rules c c.retry
