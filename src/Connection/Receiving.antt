-- ===== src/Connection/Receiving.antt =====
-- Connection.cpp: `start`, the loop that reads messages, and `stop`. Each turn of the loop is a step
-- of the history, with what the reader answers.
use synergy_hogsback.Prelude.{
  Bool, true, false, not, if◌then◌else◌, List, [], ◌∷◌, Option, none, some,
}

-- The error that the reader is left with.
pub data ReadError : Type 0 where
  no_error : ReadError
  aborted : ReadError
  failed : ReadError

pub data Event (M : Type 0) : Type 0 where
  on_message : M → Event M
  on_disconnect : Event M

-- Is the connection enabled, does the loop go on, and what it has announced, the latest first?
pub record Receiver (M : Type 0) : Type 0 where
  pub enabled : Bool
  pub looping : Bool
  pub events : List (Event M)

pub data Input (M : Type 0) : Type 0 where
  reads : Option M → ReadError → Input M
  stops : Input M

module _ {M : Type 0} where
  abbrev pub start : Receiver M
  start = record { enabled = true; looping = true; events = [] }

  abbrev pub deliver : Option M → List (Event M) → List (Event M)
  deliver none events = events
  deliver (some message) events = on_message message ∷ events

  abbrev pub after_error : ReadError → Receiver M → Receiver M
  after_error no_error r = r
  after_error aborted r = record r { looping = false }
  after_error failed r = record r { looping = false; events = on_disconnect ∷ r.events }

  -- The message is delivered before the loop looks whether it was stopped.
  unfoldable pub turn : Option M → ReadError → Receiver M → Receiver M
  turn message error r =
      let heard : Receiver M = record r { events = deliver message r.events } in
      let stopped : Receiver M = record heard { looping = false } in
      let next = if not heard.enabled then stopped else after_error error heard in
      if r.looping then next else r

  -- The read that is waited for is cancelled; its turn is a step of its own.
  unfoldable pub stop : Receiver M → Receiver M
  stop r = record r { enabled = false }

  unfoldable pub receive : List (Input M) → Receiver M → Receiver M
  receive [] r = r
  receive (reads message error ∷ more) r = receive more (turn message error r)
  receive (stops ∷ more) r = receive more (stop r)
