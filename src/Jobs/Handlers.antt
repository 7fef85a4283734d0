-- ===== src/Jobs/Handlers.antt =====
-- CloudClient.cpp, the handlers on a client that satisfies its invariant.
use synergy_hogsback.Prelude.{
  ◌+◌, ◌-◌, ◌%◌, ◌^◌, ◌≤◌, ◌<◌, ◌≡◌, refl, ap, ◌∙◌, Bool, true, false, leb, ◌==◌, some, arith,
  length, append-nil, inl, inr, Bool-cases,
}
use synergy_hogsback.Jobs.Queues.{push_at, append_job}
use synergy_hogsback.Jobs.Client.{
  HttpJob, JobCategory, category_index, Jobs, add_http_job, charge, response_received,
  profile_update, screen_update, screen_status_update, Client, sending,
}
use synergy_hogsback.Jobs.Weight.{
  total, weigh-push_at, length-push_at, Fronted-push_at, Fronted-total,
}
use synergy_hogsback.Jobs.Requests.{
  IsCounted, IsCurrent, Flight, current_job_lem, attempts, Ran, send_next_http_lem, pop_job_lem,
  set_current_job_lem,
}

-- The invariant of the client.
pub record ClientInv (c : Client) : Type 0 where
  pub counted : IsCounted c.jobs
  pub flight : Flight c.jobs c.pending

pub IsCurrent-total : (p : Jobs) (job : HttpJob) → IsCurrent p job → 0 < total p.queues
IsCurrent-total p job now = Fronted-total p.queues now.index job now.fronted

category_index-lt : (category : JobCategory) → category_index category < 3
unfolding category_index
category_index-lt profile_update = omega arith
category_index-lt screen_update = omega arith
category_index-lt screen_status_update = omega arith

-- A response uses up an attempt of the current job, and a failure repeats it.
pub response_received_lem :
    (ok : Bool) (p : Jobs) (job : HttpJob)
    → IsCounted p
    → IsCurrent p job
    → Ran (response_received ok p) (total p.queues) (attempts p.queues - 1)
unfolding response_received charge
response_received_lem true p job c now =
    let (p', popped, c', fewer, less) = pop_job_lem p job c now in
    let out = send_next_http_lem p' c' in
    let j = out.jobs_left in
    let a = out.attempts_left in
    record {
      after = out.after;
      sent = out.sent;
      is_out = rw popped out.is_out;
      counted = out.counted;
      flight = out.flight;
      jobs_left = omega arith;
      attempts_left = omega arith;
    }
response_received_lem false p job c now = elim (Bool-cases (job.retry_times == 0)) [
  | inl last ↦
      let (p', popped, c', fewer, less) = pop_job_lem p job c now in
      let out = send_next_http_lem p' c' in
      let j = out.jobs_left in
      let a = out.attempts_left in
      record {
        after = out.after;
        sent = out.sent;
        is_out = rw (current_job_lem p job now, last, popped) out.is_out;
        counted = out.counted;
        flight = out.flight;
        jobs_left = omega arith;
        attempts_left = omega arith;
      }
  | inr again ↦
      let job' : HttpJob = record job { retry_times = job.retry_times - 1 } in
      let (p', written, c', same, less) = set_current_job_lem p job job' c now in
      let out = send_next_http_lem p' c' in
      let j = out.jobs_left in
      let a = out.attempts_left in
      record {
        after = out.after;
        sent = out.sent;
        is_out = rw (current_job_lem p job now, again, written) out.is_out;
        counted = out.counted;
        flight = out.flight;
        jobs_left = omega arith;
        attempts_left = ground arith;
      }
]

pub add_http_job_lem :
    (category : JobCategory) (job : HttpJob) (c : Client)
    → ClientInv c
    → total c.jobs.queues + 1 < 2 ^ 64
    → (after : Client) × (sending c.pending (add_http_job category job c.jobs) ≡ some after)
      × ClientInv after
      × (total after.jobs.queues ≤ total c.jobs.queues + 1)
unfolding add_http_job append_job
add_http_job_lem category job c inv room =
    let index = category_index category in
    let i = category_index-lt category in
    let p = c.jobs in
    let three = inv.counted.three in
    let k = inv.counted.count in
    let known : leb (length p.queues) index ≡ false = ground arith in
    let inside : index < length p.queues = omega arith in
    let more = weigh-push_at (λ (j : HttpJob). 1) index job p.queues inside in
    let after : Jobs = record p {
      queues = push_at index job p.queues;
      size = (p.size + 1) % 2 ^ 64;
    } in
    let counted : IsCounted after = record {
      count = omega arith;
      three = length-push_at index job p.queues ∙ inv.counted.three;
      bounded = omega arith;
    } in
    elim inv.flight [
      | inl idle ↦
          let out = send_next_http_lem after counted in
          let s = idle.0 in
          let first : ((p.size + 1) % 2 ^ 64 == 1) ≡ true = ground arith in
          let j = out.jobs_left in
          (
            record { jobs = out.after; pending = out.sent },
            rw (known, first, out.is_out, idle.1) refl,
            record { counted = out.counted; flight = out.flight },
            omega arith,
          )
      | inr busy ↦
          let now = busy.1 in
          let some_jobs = IsCurrent-total p busy.0 now in
          let later : ((p.size + 1) % 2 ^ 64 == 1) ≡ false = ground arith in
          let w = now.within in
          let n = length-push_at index job p.queues in
          (
            record { jobs = after; pending = c.pending },
            rw (known, later)
                (ap (λ l. some (record { jobs = after; pending = l })) (append-nil c.pending)),
            record {
              counted = counted;
              flight = inr (
                busy.0,
                record {
                  index = now.index;
                  is_index = now.is_index;
                  within = omega arith;
                  fronted = Fronted-push_at p.queues now.index index busy.0 job now.fronted;
                },
                busy.2,
              );
            },
            omega arith,
          )
    ]
