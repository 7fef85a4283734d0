-- ===== src/Core/Process.antt =====
-- CoreProcess.cpp and CoreProcessImpl.cpp: starting, stopping and restarting the core process. Whether
-- the system can start a process is an argument of each call, and so are the command line, `none`
-- where building it throws, and `poll`: the handlers that `getIoService().poll()` runs in the middle
-- of a call, which may be any. The timer that is running is known by the command that it was armed
-- with. What uses an owner that is gone is undefined in C++: here it is the event `dangling`, and
-- nothing comes after it.
use Prim.Native.String.{String}
use synergy_hogsback.Prelude.{
  ℕ, suc, ◌==◌, Bool, true, false, not, ◌&&◌, any, if◌then◌else◌, List, [], ◌∷◌, ◌++◌, Option, none,
  some,
}
use synergy_hogsback.Prelude.Int.{ℤ, negsuc, to_int}

abbrev pub Command : Type 0
Command = List String

pub data ProcessMode : Type 0 where
  server_mode : ProcessMode
  client_mode : ProcessMode
  unknown_mode : ProcessMode

-- `CoreProcessImpl`, the owner of a process; `address` tells owners apart, and `has_process` whether
-- `m_process` holds a process that was not waited for.
pub record CoreProcessImpl : Type 0 where
  pub address : ℕ
  pub command : Command
  pub has_process : Bool
  pub expecting_exit : Bool

pub record CoreProcess : Type 0 where
  pub impl : Option CoreProcessImpl
  pub next_command : Command
  pub last_command : Command
  pub retry : Option Command
  pub mode : ProcessMode
  pub current_server_id : ℤ
  pub disabled : Bool
  -- how many owners have been made
  pub made : ℕ

-- What happens to processes and to those who watch them.
pub data Event : Type 0 where
  -- the status monitor is told that this screen is connecting
  connecting : Event
  started : Command → Event
  start_failed : Command → Event
  terminated : Event
  -- a process that was waited for is told to end
  terminated_late : Event
  exited : Event
  -- a process that is running goes with the object that owns it
  destroyed : Event
  wrote_configuration : Event
  -- `m_serverProxy.start (serverId)`
  proxied : ℤ → Event
  -- `notifyServerClaim (serverId)`
  claimed : ℤ → Event
  -- an owner is used that is gone
  dangling : Event

-- The state after a call, what it did, and whether it threw.
pub record Outcome : Type 0 where
  pub core : CoreProcess
  pub events : List Event
  pub threw : Bool

abbrev pub done : CoreProcess → List Event → Outcome
done c es = record { core = c; events = es; threw = false }

-- What happened before the call, too.
abbrev pub behind : List Event → Outcome → Outcome
behind es out = record out { events = es ++ out.events }

unfoldable pub core_process : CoreProcess
core_process = record {
  impl = none;
  next_command = [];
  last_command = [];
  retry = none;
  mode = unknown_mode;
  current_server_id = negsuc 0;
  disabled = false;
  made = 0;
}

-- The call goes on with the owner at this address, if it is still there.
abbrev pub with_owner :
    ℕ → (CoreProcess → CoreProcessImpl → Outcome) → CoreProcess → Option CoreProcessImpl → Outcome
with_owner a f c none = record { core = c; events = dangling ∷ []; threw = true }
with_owner a f c (some i) =
    if i.address == a then f c i else record { core = c; events = dangling ∷ []; threw = true }

-- The handlers that are polled, and then the rest of the call with its owner.
abbrev pub polling : Outcome → ℕ → (CoreProcess → CoreProcessImpl → Outcome) → Outcome
polling out a f =
    if out.threw then out else behind out.events (with_owner a f out.core out.core.impl)

-- `m_process->terminate()`
abbrev pub terminate : CoreProcess → CoreProcessImpl → Outcome
terminate c i = done c ((if i.has_process then terminated else terminated_late) ∷ [])

-- `CoreProcessImpl::shutdown`
unfoldable pub shutdown_impl : (CoreProcess → Outcome) → CoreProcess → CoreProcessImpl → Outcome
shutdown_impl poll c i =
    if i.expecting_exit
    then done c []
    else polling (poll (record c { impl = some (record i { expecting_exit = true }) })) i.address
        terminate

unfoldable pub shutdown_if :
    (CoreProcess → Outcome) → CoreProcess → Option CoreProcessImpl → Outcome
shutdown_if poll c none = done c []
shutdown_if poll c (some i) = shutdown_impl poll c i

-- `CoreProcess::shutdown`
unfoldable pub shutdown : (CoreProcess → Outcome) → CoreProcess → Outcome
shutdown poll c = shutdown_if poll c c.impl

-- `m_impl.reset ()`
unfoldable pub reset_events : Option CoreProcessImpl → List Event
reset_events none = []
reset_events (some i) = if i.has_process then destroyed ∷ [] else []

unfoldable pub reset : CoreProcess → Outcome
reset c = done (record c { impl = none }) (reset_events c.impl)

abbrev pub is_dangling : Event → Bool
is_dangling dangling = true
is_dangling _ = false

-- Did the program use an owner that is gone?
abbrev pub uses_dangling : Outcome → Bool
uses_dangling out = any is_dangling out.events

-- The `catch` of `startServer` and `startClient`: the owner goes, and the exception goes on.
abbrev pub caught : Outcome → Outcome
caught out =
    if out.threw && not (uses_dangling out)
    then record (behind out.events (reset out.core)) { threw = true }
    else out

abbrev pub is_empty : Command → Bool
is_empty [] = true
is_empty (word ∷ words) = false

module _ (spawns : Command → Bool) (poll : CoreProcess → Outcome) where
  -- The end of `CoreProcess::start`, where nothing runs.
  unfoldable pub launch : CoreProcess → Command → Outcome
  launch c command =
      let ready : CoreProcess = record c { last_command = command; made = suc c.made } in
      let owner : Bool → CoreProcessImpl = λ b. record {
        address = c.made;
        command = command;
        has_process = b;
        expecting_exit = false;
      } in
      if spawns command
      then done (record ready { impl = some (owner true) }) (connecting ∷ started command ∷ [])
      else record {
        core = record ready { impl = some (owner false) };
        events = connecting ∷ start_failed command ∷ [];
        threw = true;
      }

  unfoldable pub start_with : CoreProcess → Command → Option CoreProcessImpl → Outcome
  start_with c command none = launch c command
  start_with c command (some i) = shutdown poll (record c { next_command = command })

  -- `CoreProcess::start`
  unfoldable pub start : CoreProcess → Command → Outcome
  start c command =
      if c.disabled then done c [] else start_with (record c { retry = none }) command c.impl

  -- The `try` block: building the command, and starting it.
  unfoldable pub start_built : CoreProcess → Option Command → Outcome
  start_built c none = record { core = c; events = []; threw = true }
  start_built c (some command) = start c command

  -- `CoreProcess::startServer`; the id of the screen is narrowed to an `int`.
  unfoldable pub start_server : ℤ → Option Command → CoreProcess → Outcome
  start_server screen_id command c =
      let ready : CoreProcess = record c {
        mode = server_mode;
        current_server_id = to_int screen_id;
      } in
      if c.disabled
      then done c []
      else behind (wrote_configuration ∷ []) (caught (start_built ready command))

  -- `CoreProcess::startClient`, whose argument is an `int`.
  unfoldable pub start_client : ℤ → Option Command → CoreProcess → Outcome
  start_client server_id command c =
      let ready : CoreProcess = record c { mode = client_mode; current_server_id = server_id } in
      if c.disabled then done c [] else caught (start_built ready command)

  -- The `expectedExit` handler.
  unfoldable pub expected_exit : CoreProcess → Outcome
  expected_exit c =
      let alone = reset c in
      let started_next : Outcome =
        start (record (alone.core) { next_command = [] }) c.next_command in
      if is_empty c.next_command then alone else behind alone.events started_next

  -- The `unexpectedExit` handler.
  unfoldable pub unexpected_exit : CoreProcess → Outcome
  unexpected_exit c =
      let alone = reset c in
      let armed : CoreProcess = record (alone.core) {
        retry = some c.last_command;
        last_command = [];
      } in
      if is_empty c.last_command then alone else done armed alone.events

  -- The end of the process is told once the streams are cancelled and handlers polled.
  unfoldable pub exit_of : CoreProcess → Option CoreProcessImpl → Outcome
  exit_of c none = done c []
  exit_of c (some i) =
      let waited : CoreProcess = record c { impl = some (record i { has_process = false }) } in
      let unexpected = polling (poll waited) i.address (λ after j. unexpected_exit after) in
      if i.has_process
      then behind (exited ∷ []) (if i.expecting_exit then expected_exit waited else unexpected)
      else done c []

  -- `on_exit` of the process, if there is one.
  unfoldable pub on_exit : CoreProcess → Outcome
  on_exit c = exit_of c c.impl

  unfoldable pub retry_with : CoreProcess → Option Command → Outcome
  retry_with c none = done c []
  retry_with c (some command) = start (record c { retry = none }) command

  -- The handler of the retry timer, when it expires.
  unfoldable pub on_retry : CoreProcess → Outcome
  on_retry c = retry_with c c.retry
