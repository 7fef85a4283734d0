-- ===== src/Connection/Sending.antt =====
-- Connection.cpp: `send` and the coroutine that it starts. A coroutine is at the write of a message,
-- which ends in a step of the history; a write that fails is not told from one that succeeds.
use synergy_hogsback.Prelude.{
  ℕ, suc, ◌==◌, if◌then◌else◌, List, [], ◌∷◌, ◌++◌, none, some, length, get_elem?,
}

-- The messages in the queue, the one that each coroutine writes, and those that have been written.
pub record SendQueue (M : Type 0) : Type 0 where
  pub queue : List M
  pub writers : List M
  pub written : List M

pub data Step (M : Type 0) : Type 0 where
  sends : M → Step M
  ends : ℕ → Step M

module _ {M : Type 0} where
  abbrev pub new_queue : SendQueue M
  new_queue = record { queue = []; writers = []; written = [] }

  -- The first message starts a coroutine.
  unfoldable pub send_message : M → SendQueue M → SendQueue M
  send_message message c =
      let queue = c.queue ++ (message ∷ []) in
      let waits : SendQueue M = record c { queue = queue } in
      let starts : SendQueue M = record c { queue = queue; writers = message ∷ c.writers } in
      if length queue == 1 then starts else waits

  abbrev pub pop_front : List M → List M
  pop_front [] = []
  pop_front (m ∷ ms) = ms

  -- A coroutine goes on with the front of the queue, or ends.
  abbrev pub go_on : List M → List M → List M
  go_on [] others = others
  go_on (m ∷ ms) others = m ∷ others

  abbrev pub remove_writer : ℕ → List M → List M
  remove_writer i [] = []
  remove_writer Prim.Native.Nat.zero (m ∷ ms) = ms
  remove_writer (suc i) (m ∷ ms) = m ∷ remove_writer i ms

  -- The write of the coroutine at that place ends.
  unfoldable pub write_ends : ℕ → SendQueue M → SendQueue M
  write_ends i c = elim (get_elem? c.writers i) [
    | none ↦ c
    | some message ↦
        let rest = pop_front c.queue in
        record {
          queue = rest;
          writers = go_on rest (remove_writer i c.writers);
          written = c.written ++ (message ∷ []);
        }
  ]

  unfoldable pub run : List (Step M) → SendQueue M → SendQueue M
  run [] c = c
  run (sends message ∷ more) c = run more (send_message message c)
  run (ends i ∷ more) c = run more (write_ends i c)
