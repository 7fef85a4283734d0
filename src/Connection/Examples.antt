-- ===== src/Connection/Examples.antt =====
-- Connection.cpp on short histories.
use synergy_hogsback.Prelude.{ℕ, ◌≡◌, refl, ◌⊎◌, List, [], ◌∷◌, ◌++◌, none, some}
use synergy_hogsback.Connection.Sending.{
  Step, sends, ends, new_queue, run, send_message, write_ends,
}
use synergy_hogsback.Connection.Receiving.{
  Input, reads, no_error, aborted, failed, on_message, on_disconnect, start, receive, stop, turn,
}
use synergy_hogsback.Connection.Order.{sent_in, in_order, run_lem, receive-stop}

abbrev steps : List (Step ℕ)
steps = sends 1 ∷ sends 2 ∷ ends 0 ∷ sends 3 ∷ ends 0 ∷ ends 0 ∷ sends 4 ∷ []

run_test : run steps new_queue ≡ in_order (4 ∷ []) (1 ∷ 2 ∷ 3 ∷ [])
unfolding run send_message write_ends
run_test = refl

run_lem_example :
    (queue : List ℕ) × (written : List ℕ) × (run steps new_queue ≡ in_order queue written)
    × (written ++ queue ≡ sent_in steps)
run_lem_example = run_lem steps

-- A read that was over when the connection was stopped is still delivered.
abbrev inputs : List (Input ℕ)
inputs = reads (some 5) no_error ∷ reads none aborted ∷ []

receive_test : (receive inputs (stop start)).events ≡ on_message 5 ∷ []
unfolding receive stop turn
receive_test = refl

disconnect_test :
    (receive (reads none failed ∷ reads (some 5) no_error ∷ []) (start {M = ℕ})).events
    ≡ on_disconnect ∷ []
unfolding receive turn
disconnect_test = refl

receive-stop_example :
    ((receive inputs (stop start)).events ≡ [])
    ⊎ ((message : ℕ) × ((receive inputs (stop start)).events ≡ on_message message ∷ []))
receive-stop_example = receive-stop inputs start
