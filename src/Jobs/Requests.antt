-- ===== src/Jobs/Requests.antt =====
-- CloudClient.cpp, the queues that are counted, their current job, and the single steps of the handlers.
use synergy_hogsback.Prelude.{
  ℕ, ◌+◌, ◌-◌, ◌%◌, ◌^◌, ◌≤◌, ◌<◌, ◌≡◌, refl, ap, ◌∙◌, false, leb, ◌==◌, List, [], ◌∷◌, Option,
  some, arith, length, set, ◌⊎◌, inl, inr, Bool-cases,
}
use synergy_hogsback.Jobs.Queues.{
  has_job, front, pop, current_queue, current_job, next_job, pop_job, set_current_job,
}
use synergy_hogsback.Jobs.Client.{HttpJob, Jobs, send_next_http}
use synergy_hogsback.Jobs.Weight.{weigh, total, weigh-set, length-set, Fronted, first_job-Found}

-- The counter counts the jobs, and there are three queues.
pub record IsCounted (p : Jobs) : Type 0 where
  pub count : p.size ≡ total p.queues
  pub three : length p.queues ≡ 3
  pub bounded : total p.queues < 2 ^ 64

-- The current job.
pub record IsCurrent (p : Jobs) (job : HttpJob) : Type 0 where
  pub index : ℕ
  pub is_index : p.current ≡ some index
  pub within : index < length p.queues
  pub fronted : Fronted p.queues index job

-- The requests that are not answered: none without jobs, and otherwise the current job.
abbrev pub Flight : Jobs → List HttpJob → Type 0
Flight p pending =
    ((p.size ≡ 0) × (pending ≡ [])) ⊎ ((job : HttpJob) × IsCurrent p job × (pending ≡ job ∷ []))

pub current_job_lem : (p : Jobs) (job : HttpJob) → IsCurrent p job → current_job p ≡ some job
unfolding current_job current_queue front
current_job_lem p job c =
    let inside : leb (length p.queues) c.index ≡ false = (let w = c.within in ground arith) in
    rw (c.is_index, inside, c.fronted.is_front) refl

-- How many attempts the jobs have left.
abbrev pub attempts : List (List HttpJob) → ℕ
attempts = weigh (λ job. job.retry_times + 1)

-- A handler ran: the queues after it, which are counted, and the one request that went out, if any.
pub record Ran (out : Option (Jobs × List HttpJob)) (jobs : ℕ) (left : ℕ) : Type 0 where
  pub after : Jobs
  pub sent : List HttpJob
  pub is_out : out ≡ some (after, sent)
  pub counted : IsCounted after
  pub flight : Flight after sent
  pub jobs_left : total after.queues ≤ jobs
  pub attempts_left : attempts after.queues ≤ left

pub send_next_http_lem :
    (p : Jobs) → IsCounted p → Ran (send_next_http p) (total p.queues) (attempts p.queues)
unfolding send_next_http has_job next_job
send_next_http_lem p c = elim (Bool-cases (p.size == 0)) [
  | inl idle ↦
      let k = c.count in
      rw (idle, send_next_http)
        (record {
          after = p;
          sent = [];
          is_out = refl;
          counted = c;
          flight = inl (ground arith, refl);
          jobs_left = omega arith;
          attempts_left = omega arith;
        })
  | inr busy ↦
      let k = c.count in
      let found = first_job-Found 0 p.queues (ground arith) in
      record {
        after = record p { current = some found.place };
        sent = found.job ∷ [];
        is_out =
            rw (busy, found.is_found)
              (ap (λ i. some (record p { current = some i }, found.job ∷ [])) (omega arith));
        counted = record { count = c.count; three = c.three; bounded = c.bounded };
        flight = inr (
          found.job,
          record {
            index = found.place;
            is_index = refl;
            within = found.within;
            fronted = found.fronted;
          },
          refl,
        );
        jobs_left = omega arith;
        attempts_left = omega arith;
      }
]

-- Popping the current job, or writing it back with a retry less.
pub pop_job_lem :
    (p : Jobs) (job : HttpJob)
    → IsCounted p
    → IsCurrent p job
    → (p' : Jobs) × (pop_job p ≡ some p')
      × IsCounted p'
      × (total p'.queues + 1 ≡ total p.queues)
      × (attempts p'.queues + (job.retry_times + 1) ≡ attempts p.queues)
unfolding pop_job current_queue pop
pop_job_lem p job c now =
    let inside : leb (length p.queues) now.index ≡ false = (let w = now.within in ground arith) in
    let jobs = now.fronted.jobs in
    let fewer = weigh-set (λ (j : HttpJob). 1) p.queues now.index jobs now.fronted.is_front in
    let less =
      weigh-set (λ (j : HttpJob). j.retry_times + 1) p.queues now.index jobs now.fronted.is_front in
    let k = c.count in
    let b = c.bounded in
    (
      record p { queues = set p.queues now.index jobs; size = (p.size + (2 ^ 64 - 1)) % 2 ^ 64 },
      rw (now.is_index, inside, now.fronted.is_front) refl,
      record {
        count = omega arith;
        three = length-set p.queues now.index jobs ∙ c.three;
        bounded = omega arith;
      },
      omega arith,
      omega arith,
    )

pub set_current_job_lem :
    (p : Jobs) (job job' : HttpJob)
    → IsCounted p
    → IsCurrent p job
    → (p' : Jobs) × (set_current_job p job' ≡ some p')
      × IsCounted p'
      × (total p'.queues ≡ total p.queues)
      × (attempts p'.queues + (job.retry_times + 1) ≡ attempts p.queues + (job'.retry_times + 1))
unfolding set_current_job current_queue pop
set_current_job_lem p job job' c now =
    let inside : leb (length p.queues) now.index ≡ false = (let w = now.within in ground arith) in
    let jobs = now.fronted.jobs in
    let same =
      weigh-set (λ (j : HttpJob). 1) p.queues now.index (job' ∷ jobs) now.fronted.is_front in
    let less =
      weigh-set (λ (j : HttpJob). j.retry_times + 1) p.queues now.index (job' ∷ jobs)
        now.fronted.is_front in
    let k = c.count in
    let b = c.bounded in
    (
      record p { queues = set p.queues now.index (job' ∷ jobs) },
      rw (now.is_index, inside, now.fronted.is_front) refl,
      record {
        count = omega arith;
        three = length-set p.queues now.index (job' ∷ jobs) ∙ c.three;
        bounded = omega arith;
      },
      omega arith,
      omega arith,
    )
