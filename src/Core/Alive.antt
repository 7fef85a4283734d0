-- ===== src/Core/Alive.antt =====
-- CoreProcess.cpp and CoreManager.cpp, the processes that each operation starts and ends.
use mathlib.Core.Path.{subst, sym}
use synergy_hogsback.Prelude.{
  ℕ, ◌==◌, ◌≡◌, refl, ap, ◌∙◌, Bool, true, false, not, ◌&&◌, List, [], ◌∷◌, ◌++◌, Option, none,
  some, inl, inr, Bool-cases, if-cases,
}
use synergy_hogsback.Prelude.Int.{ℤ}
use synergy_hogsback.Core.Process.{
  Command, CoreProcessImpl, CoreProcess, Event, connecting, started, start_failed, terminated,
  terminated_late, exited, destroyed, wrote_configuration, proxied, claimed, dangling, Outcome,
  done, behind, with_owner, polling, terminate, shutdown, shutdown_if, shutdown_impl, reset,
  reset_events, is_dangling, uses_dangling, caught, launch,
}
use synergy_hogsback.Core.Manager.{Commands}

-- What is asked of the core process.
pub data Action : Type 0 where
  switches : Commands → ℤ → Action
  detects_input : Commands → Action
  changes_layout : Commands → Action
  pauses : Action
  resumes : Commands → Action
  restarts : Commands → Action
  exits : Action
  expires : Action

-- A history of handlers. With each handler: which commands the system can start while it runs, the
-- history of the handlers that it polls, and whether its caller catches what it throws.
pub data History : Type 0 where
  ends : History
  runs : (Command → Bool) → History → Bool → Action → History → History

-- Is there a process? `none` where a second one is started, where one ends or is told to end that
-- does not run, and where one that runs is taken for one that was waited for.
abbrev pub alive_after : Bool → Event → Option Bool
alive_after alive connecting = some alive
alive_after alive (start_failed k) = some alive
alive_after alive wrote_configuration = some alive
alive_after alive (proxied n) = some alive
alive_after alive (claimed n) = some alive
alive_after alive dangling = some alive
alive_after false terminated_late = some false
alive_after true terminated_late = none
alive_after false (started k) = some true
alive_after true (started k) = none
alive_after false terminated = none
alive_after true terminated = some true
alive_after false exited = none
alive_after true exited = some false
alive_after false destroyed = none
alive_after true destroyed = some false

abbrev pub bind : Option Bool → (Bool → Option Bool) → Option Bool
bind none f = none
bind (some b) f = f b

abbrev pub alive_through : Bool → List Event → Option Bool
alive_through alive [] = some alive
alive_through alive (e ∷ es) = bind (alive_after alive e) (λ b. alive_through b es)

abbrev pub lives : Option CoreProcessImpl → Bool
lives none = false
lives (some i) = i.has_process

-- Does the core process own a running process?
abbrev pub is_alive : CoreProcess → Bool
is_alive c = lives c.impl

-- The call's events lead from one process, or none, to what the state says.
pub record Told (alive : Bool) (out : Outcome) : Type 0 where
  pub told : alive_through alive out.events ≡ some (is_alive out.core)

pub retold : {a b : Bool} {out : Outcome} → a ≡ b → Told a out → Told b out
retold {a} {b} {out} e h = subst (λ alive. Told alive out) e h

bind_assoc :
    (f g h : Bool → Option Bool) (o : Option Bool)
    → ((b : Bool) → h b ≡ bind (f b) g)
    → bind o h ≡ bind (bind o f) g
bind_assoc f g h none k = refl
bind_assoc f g h (some b) k = k b

pub alive_through-append :
    (alive : Bool) (xs ys : List Event)
    → alive_through alive (xs ++ ys) ≡ bind (alive_through alive xs) (λ b. alive_through b ys)
alive_through-append alive [] ys = refl
alive_through-append alive (e ∷ xs) ys =
    bind_assoc _ _ _ (alive_after alive e) (λ b. alive_through-append b xs ys)

pub nothing-Told : (c : CoreProcess) → Told (is_alive c) (done c [])
nothing-Told c = record { told = refl }

-- One outcome after another.
pub behind-Told :
    {alive : Bool} (out next : Outcome)
    → Told alive out
    → Told (is_alive out.core) next
    → Told alive (behind out.events next)
behind-Told {alive} out next h k = record {
  told = alive_through-append alive out.events next.events ∙ rw h.told k.told;
}

-- An event that neither starts nor ends a process, and uses no owner.
abbrev pub IsQuiet : Event → Type 0
IsQuiet e = ((alive : Bool) → alive_after alive e ≡ some alive) × (is_dangling e ≡ false)

pub quiet-Told :
    {alive : Bool} (e : Event) (out : Outcome)
    → IsQuiet e
    → Told alive out
    → Told alive (behind (e ∷ []) out)
quiet-Told {alive} e out quiet h = record { told = rw (quiet.0 alive) h.told }

reset_alive :
    (impl : Option CoreProcessImpl) → alive_through (lives impl) (reset_events impl) ≡ some false
unfolding reset_events
reset_alive none = refl
reset_alive (some i) = elim (Bool-cases i.has_process) [
  | inl running ↦ rw running refl
  | inr empty ↦ rw empty refl
]

pub reset-Told : (c : CoreProcess) → Told (is_alive c) (reset c)
unfolding reset
reset-Told c = record { told = reset_alive c.impl }

-- An exception takes the owner away, with its process if it has one.
pub caught-Told : {alive : Bool} (out : Outcome) → Told alive out → Told alive (caught out)
caught-Told {alive} out h =
    if-cases (Told alive) (out.threw && not (uses_dangling out))
      (λ bad. record { told = (behind-Told out _ h (reset-Told out.core)).told }) (λ good. h)

-- The rest of a call keeps the account, from the owner that it finds.
abbrev pub KeepsAccount : (CoreProcess → CoreProcessImpl → Outcome) → Type 0
KeepsAccount f =
    (c : CoreProcess) (i : CoreProcessImpl) → c.impl ≡ some i → Told i.has_process (f c i)

pub polling-Told :
    {alive : Bool} (out : Outcome) (a : ℕ) (f : CoreProcess → CoreProcessImpl → Outcome)
    → KeepsAccount f
    → Told alive out
    → Told alive (polling out a f)
polling-Told {alive} out a f k h =
    if-cases (Told alive) out.threw (λ bad. h)
      (λ good. behind-Told out _ h (at_owner out.core.impl refl))
  where
    at_owner :
        (impl : Option CoreProcessImpl)
        → out.core.impl ≡ impl
        → Told (is_alive out.core) (with_owner a f out.core impl)
    at_owner none e = record { told = refl }
    at_owner (some i) e =
        if-cases (Told (is_alive out.core)) (i.address == a)
          (λ here. retold (sym (ap lives e)) (k out.core i e)) (λ gone. record { told = refl })

terminate-KeepsAccount : KeepsAccount terminate
terminate-KeepsAccount c i e = elim (Bool-cases i.has_process) [
  | inl running ↦ rw running (record { told = rw (e, running) refl })
  | inr empty ↦ rw empty (record { told = rw (e, empty) refl })
]

module _ (poll : CoreProcess → Outcome)
    (polls : (c : CoreProcess) → Told (is_alive c) (poll c)) where
  shutdown_if-Told :
      (c : CoreProcess) (impl : Option CoreProcessImpl)
      → c.impl ≡ impl
      → Told (lives impl) (shutdown_if poll c impl)
  unfolding shutdown_if shutdown_impl
  shutdown_if-Told c none e = retold (ap lives e) (nothing-Told c)
  shutdown_if-Told c (some i) e =
      if-cases (Told i.has_process) i.expecting_exit (λ twice. retold (ap lives e) (nothing-Told c))
        (λ once.
          polling-Told _ i.address terminate terminate-KeepsAccount
            (polls (record c { impl = some (record i { expecting_exit = true }) })))

  pub shutdown-Told : (c : CoreProcess) → Told (is_alive c) (shutdown poll c)
  unfolding shutdown
  shutdown-Told c = shutdown_if-Told c c.impl refl

  module _ (spawns : Command → Bool) where
    pub launch-Told :
        (alive : Bool) (c : CoreProcess) (k : Command)
        → alive ≡ false
        → Told alive (launch spawns poll c k)
    unfolding launch
    launch-Told alive c k e =
        if-cases (Told alive) (spawns k) (λ good. record { told = rw e refl })
          (λ bad. record { told = rw e refl })
