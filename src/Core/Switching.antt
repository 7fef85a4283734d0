-- ===== src/Core/Switching.antt =====
-- CoreProcess.cpp, the core process after it was asked to run something, and after its process ended.
use mathlib.Core.Path.{subst, sym}
use synergy_hogsback.Prelude.{
  ℕ, ◌≡◌, refl, ap, ◌∙◌, Bool, true, false, ◌==◌, if◌then◌else◌, [], ◌∷◌, none, some, arith,
  Bool-cases, inl, inr,
}
use synergy_hogsback.Core.Process.{
  Command, CoreProcessImpl, CoreProcess, exited, Outcome, done, behind, polling, terminate,
  shutdown, shutdown_if, shutdown_impl, is_empty, launch, start_with, start, expected_exit,
  unexpected_exit, exit_of, on_exit, retry_with, on_retry, reset,
}

-- The owner that a fresh start leaves.
abbrev pub running : ℕ → Command → CoreProcessImpl
running a k = record { address = a; command = k; has_process = true; expecting_exit = false }

-- Is the command run by the owner that a call leaves?
abbrev pub Runs : Command → Outcome → Type 0
Runs k out = (a : ℕ) × (out.core.impl ≡ some (running a k))

-- The handlers that are polled at this state throw nothing, and leave it with the same owner, and enabled
-- or not as before.
pub record IsUndisturbed (poll : CoreProcess → Outcome) (c : CoreProcess) : Type 0 where
  pub returned : (poll c).threw ≡ false
  pub owner : (poll c).core.impl ≡ c.impl
  pub enabled : (poll c).core.disabled ≡ c.disabled

-- The states that handlers are polled at when a command is asked for, and when a process has ended.
abbrev pub asked : Command → CoreProcessImpl → CoreProcess → CoreProcess
asked k i c = record c {
  retry = none;
  next_command = k;
  impl = some (record i { expecting_exit = true });
}

abbrev pub waited : CoreProcessImpl → CoreProcess → CoreProcess
waited i c = record c { impl = some (record i { has_process = false }) }

same_address : (a : ℕ) → a == a ≡ true
same_address a = ground arith

polling_core :
    (out : Outcome) (f : CoreProcess → CoreProcessImpl → Outcome) (i : CoreProcessImpl)
    → out.threw ≡ false
    → out.core.impl ≡ some i
    → (polling out i.address f).core ≡ (f out.core i).core
polling_core out f i good e = rw (good, e, same_address i.address) refl

module _ (spawns : Command → Bool) (poll : CoreProcess → Outcome) (k : Command)
    (ok : spawns k ≡ true) (real : is_empty k ≡ false) where
  launch_lem : (c : CoreProcess) → (launch spawns poll c k).core.impl ≡ some (running c.made k)
  unfolding launch
  launch_lem c = rw ok refl

  start_core :
      (c : CoreProcess) (i : CoreProcessImpl)
      → c.disabled ≡ false
      → c.impl ≡ some i
      → (start spawns poll c k).core
        ≡ (shutdown_impl poll (record c { retry = none; next_command = k }) i).core
  unfolding start start_with shutdown shutdown_if
  start_core c i on e =
      ap
        (λ b.
          (if b
            then done c []
            else start_with spawns poll (record c { retry = none }) k c.impl).core)
        on
      ∙ ap (λ o. (start_with spawns poll (record c { retry = none }) k o).core) e
      ∙ ap (λ o. (shutdown_if poll (record c { retry = none; next_command = k }) o).core) e

  shutdown_core :
      (c : CoreProcess) (i : CoreProcessImpl)
      → i.expecting_exit ≡ true
      → (shutdown_impl poll c i).core ≡ c
  unfolding shutdown_impl
  shutdown_core c i going = rw going refl

  shutdown_polls :
      (c : CoreProcess) (i : CoreProcessImpl)
      → i.expecting_exit ≡ false
      → (shutdown_impl poll c i).core
        ≡ (polling
            (poll (record c { impl = some (record i { expecting_exit = true }) }))
            i.address
            terminate).core
  unfolding shutdown_impl
  shutdown_polls c i here =
      let rest =
        polling (poll (record c { impl = some (record i { expecting_exit = true }) })) i.address
          terminate in
      ap (λ b. (if b then done c [] else rest).core) here

  exit_polls :
      (c : CoreProcess) (i : CoreProcessImpl)
      → c.impl ≡ some i
      → i.has_process ≡ true
      → i.expecting_exit ≡ false
      → (on_exit spawns poll c).core
        ≡ (polling (poll (waited i c)) i.address (λ d j. unexpected_exit spawns poll d)).core
  unfolding on_exit exit_of
  exit_polls c i e alive alone =
      let expected = expected_exit spawns poll (waited i c) in
      let unexpected =
        polling (poll (waited i c)) i.address (λ d j. unexpected_exit spawns poll d) in
      let told = if i.expecting_exit then expected else unexpected in
      ap (λ o. (exit_of spawns poll c o).core) e
      ∙ ap (λ b. (if b then behind (exited ∷ []) told else done c []).core) alive
      ∙ ap (λ b. (if b then expected else unexpected).core) alone

  -- An enabled core process that is left with an owner whose process it expects to end runs the next
  -- command at that end.
  next_lem :
      (c : CoreProcess) (i : CoreProcessImpl)
      → c.impl ≡ some i
      → i.has_process ≡ true
      → i.expecting_exit ≡ true
      → c.disabled ≡ false
      → c.next_command ≡ k
      → Runs k (on_exit spawns poll c)
  unfolding on_exit exit_of expected_exit reset start start_with
  next_lem c i e alive going on next = (c.made, rw (e, alive, going, next, real, on) (launch_lem _))

  -- With nothing running, an enabled core process that is asked to start a command runs it at once.
  -- With a process running, it runs the command when that process is gone, unless the handlers that are
  -- polled before that process is told to end throw, or change the owner, the next command or
  -- whether the core is enabled. The command is not empty and can be started.
  pub start_lem :
      (c : CoreProcess)
      → c.disabled ≡ false
      → (c.impl ≡ none → Runs k (start spawns poll c k))
        × ((i : CoreProcessImpl)
            → c.impl ≡ some i
            → i.has_process ≡ true
            → IsUndisturbed poll (asked k i c)
            → (poll (asked k i c)).core.next_command ≡ k
            → Runs k (on_exit spawns poll (start spawns poll c k).core))
  unfolding start start_with
  start_lem c on = (
    λ e. (c.made, rw (on, e) (launch_lem _)),
    λ i e alive u next.
        let told : CoreProcess = record c { retry = none; next_command = k } in
        let before : CoreProcessImpl = record i { expecting_exit = true } in
        subst (λ d. Runs k (on_exit spawns poll d)) (sym (start_core c i on e))
          (elim (Bool-cases i.expecting_exit) [
            | inl going ↦
                subst (λ d. Runs k (on_exit spawns poll d)) (sym (shutdown_core told i going))
                  (next_lem told i e alive going on refl)
            | inr here ↦
                let left = (poll (asked k i c)).core in
                subst (λ d. Runs k (on_exit spawns poll d))
                  (sym (
                    shutdown_polls told i here
                    ∙ polling_core (poll (asked k i c)) terminate before u.returned u.owner))
                  (next_lem left before u.owner alive refl (u.enabled ∙ on) next)
          ]),
  )

  rearms :
      (d : CoreProcess)
      → d.last_command ≡ k
      → d.disabled ≡ false
      → Runs k (on_retry spawns poll (unexpected_exit spawns poll d).core)
  unfolding unexpected_exit on_retry retry_with start start_with reset
  rearms d last on = (d.made, rw (last, real, on) (launch_lem _))

  -- An enabled core process whose process ends by itself starts its last command again when the
  -- retry timer expires, if that command is not empty and can be started, unless the handlers that are
  -- polled at the end of the process throw, or change the owner, the last command or
  -- whether the core is enabled.
  pub retry_lem :
      (c : CoreProcess) (i : CoreProcessImpl)
      → c.disabled ≡ false
      → c.impl ≡ some i
      → i.has_process ≡ true
      → i.expecting_exit ≡ false
      → c.last_command ≡ k
      → IsUndisturbed poll (waited i c)
      → (poll (waited i c)).core.last_command ≡ c.last_command
      → Runs k (on_retry spawns poll (on_exit spawns poll c).core)
  retry_lem c i on e alive alone last u kept =
      let ended : CoreProcessImpl = record i { has_process = false } in
      let after : CoreProcess → CoreProcessImpl → Outcome = λ d j. unexpected_exit spawns poll d in
      subst (λ d. Runs k (on_retry spawns poll d))
        (sym (
          exit_polls c i e alive alone
          ∙ polling_core (poll (waited i c)) after ended u.returned u.owner))
        (rearms (poll (waited i c)).core (kept ∙ last) (u.enabled ∙ on))
