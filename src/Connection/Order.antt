-- ===== src/Connection/Order.antt =====
-- Connection.cpp: messages are written in the order in which they are sent, and a connection that is
-- stopped goes quiet.
use mathlib.Core.Path.{subst}
use synergy_hogsback.Prelude.{
  ℕ, suc, zero, true, false, ◌==◌, ◌≡◌, refl, sym, ap, ◌∙◌, ◌⊎◌, inl, inr, List, [], ◌∷◌, ◌++◌,
  Option, none, some, arith, length, append-nil, length-append, append_assoc, Bool-cases,
}
use synergy_hogsback.Connection.Sending.{
  SendQueue, new_queue, send_message, write_ends, go_on, Step, sends, ends, run,
}
use synergy_hogsback.Connection.Receiving.{
  ReadError, Event, on_message, Receiver, deliver, turn, stop, Input, reads, stops, receive,
}

module _ {M : Type 0} where
  -- The messages that are sent in a history.
  pub sent_in : List (Step M) → List M
  sent_in [] = []
  sent_in (sends message ∷ more) = message ∷ sent_in more
  sent_in (ends i ∷ more) = sent_in more

  -- One coroutine writes the front of the queue, and there is none if the queue is empty.
  abbrev pub in_order : List M → List M → SendQueue M
  in_order queue written = record { queue = queue; writers = go_on queue []; written = written }

  send_message-in_order :
      (message : M) (queue written : List M)
      → send_message message (in_order queue written) ≡ in_order (queue ++ (message ∷ [])) written
  unfolding send_message
  send_message-in_order message [] written = refl
  send_message-in_order message (m ∷ ms) written =
      let long : (suc (length (ms ++ (message ∷ []))) == 1) ≡ false =
        ground (arith, length-append ms (message ∷ [])) in
      rw long refl

  -- A write that ends leaves such a queue, with the same messages in all.
  ends-in_order :
      (i : ℕ) (queue written : List M)
      → (later : List M) × (more : List M) × (write_ends i (in_order queue written)
          ≡ in_order later more)
        × (more ++ later ≡ written ++ queue)
  unfolding write_ends
  ends-in_order i [] written = ([], written, refl, refl)
  ends-in_order zero (m ∷ ms) written =
      (ms, written ++ (m ∷ []), refl, append_assoc written (m ∷ []) ms)
  ends-in_order (suc i) (m ∷ ms) written = (m ∷ ms, written, refl, refl)

  run-in_order :
      (steps : List (Step M)) (queue written : List M)
      → (later : List M) × (more : List M) × (run steps (in_order queue written)
          ≡ in_order later more)
        × (more ++ later ≡ (written ++ queue) ++ sent_in steps)
  unfolding run sent_in
  run-in_order [] queue written = (queue, written, refl, sym (append-nil (written ++ queue)))
  run-in_order (sends message ∷ steps) queue written =
      let rest = run-in_order steps (queue ++ (message ∷ [])) written in
      (
        rest.0,
        rest.1,
        ap (run steps) (send_message-in_order message queue written) ∙ rest.2,
        rest.3
            ∙ ap (λ all. all ++ sent_in steps) (sym (append_assoc written queue (message ∷ [])))
            ∙ append_assoc (written ++ queue) (message ∷ []) (sent_in steps),
      )
  run-in_order (ends i ∷ steps) queue written =
      let step = ends-in_order i queue written in
      let rest = run-in_order steps step.0 step.1 in
      (
        rest.0,
        rest.1,
        ap (run steps) step.2 ∙ rest.2,
        rest.3 ∙ ap (λ all. all ++ sent_in steps) step.3,
      )

  -- Whenever messages are sent and writes end, at most one coroutine is writing, what it writes is the
  -- front of the queue, and what has been written with what is in the queue is what was sent, in order.
  pub run_lem :
      (steps : List (Step M))
      → (queue : List M) × (written : List M) × (run steps new_queue ≡ in_order queue written)
        × (written ++ queue ≡ sent_in steps)
  run_lem steps = run-in_order steps [] []

  turn_over :
      (message : Option M) (error : ReadError) (r : Receiver M)
      → r.looping ≡ false
      → turn message error r ≡ r
  unfolding turn
  turn_over message error r h = rw h refl

  -- The turn of a loop that was stopped.
  last_turn :
      (message : Option M) (error : ReadError) (r : Receiver M)
      → r.looping ≡ true
      → turn message error (stop r)
        ≡ record { enabled = false; looping = false; events = deliver message r.events }
  unfolding turn stop
  last_turn message error r h = rw h refl

  quiet :
      (inputs : List (Input M)) (r : Receiver M)
      → r.looping ≡ false
      → (receive inputs r).events ≡ r.events
  unfolding receive turn stop
  quiet [] r h = refl
  quiet (reads message error ∷ more) r h =
      ap (λ (q : Receiver M). (receive more q).events) (turn_over message error r h)
      ∙ quiet more r h
  quiet (stops ∷ more) r h = quiet more (stop r) h

  -- Once a connection is stopped, whatever the reader answers and however often it is stopped again, it
  -- announces at most one message more and no disconnection.
  pub receive-stop :
      (inputs : List (Input M)) (r : Receiver M)
      → ((receive inputs (stop r)).events ≡ r.events)
        ⊎ ((message : M) × ((receive inputs (stop r)).events ≡ on_message message ∷ r.events))
  unfolding receive turn stop
  receive-stop [] r = inl refl
  receive-stop (stops ∷ more) r = receive-stop more (stop r)
  receive-stop (reads message error ∷ more) r = elim (Bool-cases r.looping) [
    | inl looping ↦
        let over : Receiver M = record {
          enabled = false;
          looping = false;
          events = deliver message r.events;
        } in
        let all =
          ap (λ (q : Receiver M). (receive more q).events) (last_turn message error r looping)
          ∙ quiet more over refl in
        at_most_one message all
    | inr over ↦
        subst
          (λ (q : Receiver M).
            ((receive more q).events ≡ r.events)
            ⊎ ((message : M) × ((receive more q).events ≡ on_message message ∷ r.events)))
          (sym (turn_over message error (stop r) over)) (receive-stop more r)
  ]
    where
      at_most_one :
          (message : Option M) {events : List (Event M)}
          → events ≡ deliver message r.events
          → (events ≡ r.events) ⊎ ((m : M) × (events ≡ on_message m ∷ r.events))
      at_most_one none e = inl e
      at_most_one (some m) e = inr (m, e)
