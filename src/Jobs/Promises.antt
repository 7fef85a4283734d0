-- ===== src/Jobs/Promises.antt =====
-- CloudClient.cpp, the HTTP jobs over whole histories, as their users see them.
use synergy_hogsback.Prelude.{
  ◌+◌, ◌^◌, ◌≤◌, ◌<◌, ◌≡◌, refl, ◌∙◌, sym, Bool, true, false, ◌==◌, List, [], ◌∷◌, some, arith,
  length, map, inl, inr,
}
use synergy_hogsback.Jobs.Queues.{priority_job_queues, empty_queues, has_job, next_job, current_job}
use synergy_hogsback.Jobs.Client.{
  HttpJob, Jobs, send_next_http, Client, client, Input, responds, run,
}
use synergy_hogsback.Jobs.Weight.{total, first_job-Found, flatten}
use synergy_hogsback.Jobs.Handlers.{ClientInv, IsCurrent-total}
use synergy_hogsback.Jobs.History.{responds-Answered, run-ClientInv, client-ClientInv}
use synergy_hogsback.Jobs.Requests.{IsCounted, current_job_lem, attempts}

-- Exactly one request is pending while there are jobs, the current job, and none otherwise.
abbrev pub HasOneRequest : Client → Type 0
HasOneRequest c =
    (has_job c.jobs ≡ false → c.pending ≡ [])
    × (has_job c.jobs ≡ true
        → (job : HttpJob) × (current_job c.jobs ≡ some job) × (c.pending ≡ job ∷ []))

one_request : (c : Client) → ClientInv c → HasOneRequest c
unfolding has_job
one_request c inv = elim inv.flight [
  | inl idle ↦ (λ h. idle.1, λ h. let s = idle.0 in absurd (ground arith))
  | inr busy ↦
      let some_jobs = IsCurrent-total c.jobs busy.0 busy.1 in
      let k = inv.counted.count in
      (λ h. absurd (ground arith), λ h. (busy.0, current_job_lem c.jobs busy.0 busy.1, busy.2))
]

-- Whatever jobs are submitted and whatever the session answers, in any order and in fewer than
-- 2 ^ 64 inputs, no handler of a new client throws or reads an empty queue; and after each such
-- history exactly one request is pending if there are jobs, namely the current job, to which the
-- next response is charged, and none if there are none.
pub run-HasOneRequest :
    (is : List Input)
    → length is < 2 ^ 64
    → (after : Client) × (run client is ≡ some after) × HasOneRequest after
unfolding client priority_job_queues empty_queues
run-HasOneRequest is room =
    let (after, is_after, inv) = run-ClientInv client is client-ClientInv (omega arith) in
    (after, is_after, one_request after inv)

answers-drain :
    (c : Client) (answers : List Bool)
    → ClientInv c
    → attempts c.jobs.queues ≤ length answers
    → (after : Client) × (run c (map responds answers) ≡ some after)
      × ClientInv after
      × (attempts after.jobs.queues ≡ 0)
unfolding run
answers-drain c [] inv few = (c, refl, inv, omega arith)
answers-drain c (ok ∷ answers) inv few =
    let out = responds-Answered ok c inv in
    let a = out.attempts_left in
    let (after, is_after, inv', none_left) =
      answers-drain out.after answers out.inv (omega arith) in
    (after, rw (out.is_after, is_after) refl, inv', none_left)

no_jobs : (qs : List (List HttpJob)) → attempts qs ≡ 0 → total qs ≡ 0
no_jobs [] h = refl
no_jobs ([] ∷ qs) h = omega (arith, no_jobs qs (omega arith))
no_jobs ((x ∷ q) ∷ qs) h = absurd (omega arith)

-- After any history of a new client in fewer than 2 ^ 64 inputs, as many responses as the jobs have
-- attempts left (one for each job and one for each of its retries), whether OK or not, leave no job
-- and no pending request.
pub responses_drain :
    (is : List Input) (answers : List Bool) {c : Client}
    → length is < 2 ^ 64
    → run client is ≡ some c
    → attempts c.jobs.queues ≤ length answers
    → (after : Client) × (run c (map responds answers) ≡ some after)
      × (has_job after.jobs ≡ false)
      × (after.pending ≡ [])
unfolding client priority_job_queues empty_queues has_job
responses_drain is answers {c} room now few =
    let (c', is_c, inv) = run-ClientInv client is client-ClientInv (omega arith) in
    let same : c' ≡ c = (let both = sym is_c ∙ now in cc) in
    let (after, is_after, inv', none_left) = answers-drain c answers (rw same at inv) few in
    let idle : (after.jobs.size == 0) ≡ true =
      (let k = inv'.counted.count in let n = no_jobs after.jobs.queues none_left in ground arith) in
    (after, is_after, rw idle refl, (one_request after inv').0 (unfold has_job in rw idle refl))

-- With three queues and a counter that counts their jobs, when there is a job, `sendNextHttp` sends
-- the oldest job of the first queue that has one, and leaves the queues as they are.
pub send_next_http_urgent :
    (p : Jobs)
    → IsCounted p
    → has_job p ≡ true
    → (after : Jobs) × (job : HttpJob) × (others : List HttpJob) × (send_next_http p
        ≡ some (after, job ∷ []))
      × (after.queues ≡ p.queues)
      × (flatten p.queues ≡ job ∷ others)
unfolding send_next_http has_job next_job
send_next_http_urgent p c busy =
    let k = c.count in
    let found = first_job-Found 0 p.queues (ground arith) in
    (
      record p { current = some (0 + found.place) },
      found.job,
      found.others,
      rw (busy, found.is_found) refl,
      refl,
      found.is_first,
    )
