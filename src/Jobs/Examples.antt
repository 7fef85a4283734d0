-- ===== src/Jobs/Examples.antt =====
-- CloudClient.cpp on a few jobs.
use synergy_hogsback.Prelude.{◌≡◌, refl, true, false, List, [], ◌∷◌, some, arith, map}
use synergy_hogsback.Jobs.Queues.{
  has_job, priority_job_queues, empty_queues, append_job, push_at, next_job, first_job,
}
use synergy_hogsback.Jobs.Client.{
  HttpJob, Jobs, Client, client, Input, submits, responds, fails, profile_update, screen_update,
  run, step, answer, send_next_http, add_http_job, category_index, request_failed,
}
use synergy_hogsback.Jobs.Promises.{
  HasOneRequest, run-HasOneRequest, responses_drain, send_next_http_urgent,
}

abbrev claim : HttpJob
claim = record {
  target = "/profile/server/claim";
  method = "post";
  context = "{}";
  retry_times = 0;
}

abbrev status : HttpJob
status = record { target = "/screen/update"; method = "post"; context = "{}"; retry_times = 1 }

-- The status is on its way when the claim comes; a failure lets the claim overtake it.
abbrev inputs : List Input
inputs = submits screen_update status ∷ submits profile_update claim ∷ fails ∷ []

run-HasOneRequest_example :
    (after : Client) × (run client inputs ≡ some after) × HasOneRequest after
run-HasOneRequest_example = run-HasOneRequest inputs (omega arith)

abbrev waiting : Client
waiting = record {
  jobs = record { queues = (claim ∷ []) ∷ (status ∷ []) ∷ [] ∷ []; size = 2; current = some 0 };
  pending = claim ∷ [];
}

run_test : run client inputs ≡ some waiting
unfolding run step answer client priority_job_queues empty_queues add_http_job append_job push_at
    category_index send_next_http has_job next_job first_job request_failed
run_test = refl

responses_drain_example :
    (after : Client) × (run waiting (map responds (true ∷ false ∷ false ∷ [])) ≡ some after)
    × (has_job after.jobs ≡ false)
    × (after.pending ≡ [])
responses_drain_example =
    responses_drain inputs (true ∷ false ∷ false ∷ []) (omega arith) run_test (omega arith)

send_next_http_urgent_example :
    (after : Jobs) × (job : HttpJob) × (others : List HttpJob) × (send_next_http waiting.jobs
      ≡ some (after, job ∷ []))
    × (after.queues ≡ (claim ∷ []) ∷ (status ∷ []) ∷ [] ∷ [])
    × (claim ∷ status ∷ [] ≡ job ∷ others)
unfolding has_job
send_next_http_urgent_example =
    send_next_http_urgent waiting.jobs
      (record { count = refl; three = refl; bounded = omega arith }) refl
