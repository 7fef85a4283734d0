-- ===== src/Jobs/History.antt =====
-- CloudClient.cpp, histories of the HTTP jobs: submissions and answers in any order.
use synergy_hogsback.Prelude.{
  ℕ, ◌+◌, ◌-◌, ◌^◌, ◌≤◌, ◌<◌, ◌≡◌, refl, Bool, List, [], ◌∷◌, Option, some, arith, length, inl, inr,
}
use synergy_hogsback.Jobs.Queues.{priority_job_queues, empty_queues}
use synergy_hogsback.Jobs.Client.{
  HttpJob, request_failed, Client, client, Input, submits, responds, fails, answer, step, run,
}
use synergy_hogsback.Jobs.Weight.{total}
use synergy_hogsback.Jobs.Handlers.{ClientInv, response_received_lem, add_http_job_lem}
use synergy_hogsback.Jobs.Requests.{attempts, send_next_http_lem}

-- An answer, to the oldest of the pending requests, with a bound on the attempts left.
pub record Answered (out : Option Client) (jobs left : ℕ) : Type 0 where
  pub after : Client
  pub is_after : out ≡ some after
  pub inv : ClientInv after
  pub jobs_left : total after.jobs.queues ≤ jobs
  pub attempts_left : attempts after.jobs.queues ≤ left

pub responds-Answered :
    (ok : Bool) (c : Client)
    → ClientInv c
    → Answered (step c (responds ok)) (total c.jobs.queues) (attempts c.jobs.queues - 1)
unfolding step answer
responds-Answered ok c inv = elim inv.flight [
  | inl idle ↦
      rw (idle.1, answer)
        (record {
          after = c;
          is_after = refl;
          inv = inv;
          jobs_left = omega arith;
          attempts_left =
              let k = inv.counted.count in nothing_left c.jobs.queues (ground (arith, idle.0));
        })
  | inr busy ↦
      let out = response_received_lem ok c.jobs busy.0 inv.counted busy.1 in
      rw (busy.2, answer)
        (record {
          after = record { jobs = out.after; pending = out.sent };
          is_after = rw out.is_out refl;
          inv = record { counted = out.counted; flight = out.flight };
          jobs_left = out.jobs_left;
          attempts_left = out.attempts_left;
        })
]
  where
    none_left : (q : List HttpJob) → total (q ∷ []) ≡ 0 → attempts (q ∷ []) ≡ 0
    none_left [] h = omega arith
    none_left (x ∷ q) h = absurd (omega arith)

    nothing_left : (qs : List (List HttpJob)) → total qs ≡ 0 → attempts qs ≤ attempts qs - 1
    nothing_left qs h = omega (arith, nothing qs h)
      where
        nothing : (qs : List (List HttpJob)) → total qs ≡ 0 → attempts qs ≡ 0
        nothing [] h = refl
        nothing (q ∷ qs) h = omega (arith, none_left q (omega arith), nothing qs (omega arith))

fails-Answered :
    (c : Client)
    → ClientInv c
    → Answered (step c fails) (total c.jobs.queues) (attempts c.jobs.queues)
unfolding step answer request_failed
fails-Answered c inv = elim inv.flight [
  | inl idle ↦
      rw (idle.1, answer)
        (record {
          after = c;
          is_after = refl;
          inv = inv;
          jobs_left = omega arith;
          attempts_left = omega arith;
        })
  | inr busy ↦
      let out = send_next_http_lem c.jobs inv.counted in
      rw (busy.2, answer)
        (record {
          after = record { jobs = out.after; pending = out.sent };
          is_after = rw out.is_out refl;
          inv = record { counted = out.counted; flight = out.flight };
          jobs_left = out.jobs_left;
          attempts_left = out.attempts_left;
        })
]

-- A step goes through, keeps the invariant and adds one job at most.
pub record Stepped (out : Option Client) (jobs : ℕ) : Type 0 where
  after : Client
  is_after : out ≡ some after
  inv : ClientInv after
  jobs_left : total after.jobs.queues ≤ jobs

step-Stepped :
    (c : Client) (i : Input)
    → ClientInv c
    → total c.jobs.queues + 1 < 2 ^ 64
    → Stepped (step c i) (total c.jobs.queues + 1)
step-Stepped c (submits category job) inv room =
    let (after, is_after, inv', more) = add_http_job_lem category job c inv room in
    unfold step in record { after = after; is_after = is_after; inv = inv'; jobs_left = more }
step-Stepped c (responds ok) inv room =
    let out = responds-Answered ok c inv in
    let j = out.jobs_left in
    record { after = out.after; is_after = out.is_after; inv = out.inv; jobs_left = omega arith }
step-Stepped c fails inv room =
    let out = fails-Answered c inv in
    let j = out.jobs_left in
    record { after = out.after; is_after = out.is_after; inv = out.inv; jobs_left = omega arith }

pub run-ClientInv :
    (c : Client) (is : List Input)
    → ClientInv c
    → total c.jobs.queues + length is < 2 ^ 64
    → (after : Client) × (run c is ≡ some after) × ClientInv after
unfolding run
run-ClientInv c [] inv room = (c, refl, inv)
run-ClientInv c (i ∷ is) inv room =
    let out = step-Stepped c i inv (omega arith) in
    let j = out.jobs_left in
    let (after, is_after, inv') = run-ClientInv out.after is out.inv (omega arith) in
    (after, rw (out.is_after, is_after) refl, inv')

pub client-ClientInv : ClientInv client
unfolding client priority_job_queues empty_queues
client-ClientInv = record {
  counted = record { count = refl; three = refl; bounded = omega arith };
  flight = inl (refl, refl);
}
