-- ===== src/Jobs/Client.antt =====
-- The HTTP jobs of synergy/service/CloudClient.cpp: `addHttpJob`, `sendNextHttp` and the two handlers of the
-- HTTP session. The session is outside; what is sent to it is a list of jobs. `none` is as in
-- `Jobs.Queues`.
use Prim.Native.String.{String}
use synergy_hogsback.Prelude.{
  ℕ, ◌-◌, Bool, true, false, ◌==◌, if◌then◌else◌, List, [], ◌∷◌, ◌++◌, Option, some,
}
use synergy_hogsback.Jobs.Queues.{
  PriorityJobQueues, priority_job_queues, append_job, has_job, current_job, next_job, pop_job,
  set_current_job, ◌>>=◌,
}

-- `retryTimes` is an `int` that starts at 0, and a job that has no retry left is popped.
pub record HttpJob : Type 0 where
  pub target : String
  pub method : String
  pub context : String
  pub retry_times : ℕ

pub data JobCategory : Type 0 where
  profile_update : JobCategory
  screen_update : JobCategory
  screen_status_update : JobCategory

unfoldable pub category_index : JobCategory → ℕ
category_index profile_update = 0
category_index screen_update = 1
category_index screen_status_update = 2

abbrev pub maximum_size : ℕ
maximum_size = 3

abbrev pub Jobs : Type 0
Jobs = PriorityJobQueues HttpJob

-- `sendNextHttp`: the queues, and the requests that went out.
unfoldable pub send_next_http : Jobs → Option (Jobs × List HttpJob)
send_next_http p =
    let sent : Option (Jobs × List HttpJob) = next_job p >>= λ out. some (out.0, out.1 ∷ []) in
    if has_job p then sent else some (p, [])

unfoldable pub add_http_job : JobCategory → HttpJob → Jobs → Option (Jobs × List HttpJob)
add_http_job category job p =
    let after = (append_job p (category_index category) job).0 in
    if after.size == 1 then send_next_http after else some (after, [])

-- What a response that is not OK does to the job that was sent.
unfoldable pub charge : Jobs → Option Jobs
charge p = current_job p >>= λ last.
    if last.retry_times == 0
    then pop_job p
    else set_current_job p (record last { retry_times = last.retry_times - 1 })

-- The `responseReceived` handler; `ok` tells whether the status was `http::status::ok`.
unfoldable pub response_received : Bool → Jobs → Option (Jobs × List HttpJob)
response_received false p = charge p >>= send_next_http
response_received true p = pop_job p >>= send_next_http

-- The `requestFailed` handler.
unfoldable pub request_failed : Jobs → Option (Jobs × List HttpJob)
request_failed p = send_next_http p

-- The client with the requests that the session has and has not answered.
pub record Client : Type 0 where
  pub jobs : Jobs
  pub pending : List HttpJob

unfoldable pub client : Client
client = record { jobs = priority_job_queues maximum_size; pending = [] }

pub data Input : Type 0 where
  submits : JobCategory → HttpJob → Input
  responds : Bool → Input
  fails : Input

-- What a handler did, with the requests that were pending already.
abbrev pub sending : List HttpJob → Option (Jobs × List HttpJob) → Option Client
sending pending out = out >>= λ o. some (record { jobs = o.0; pending = pending ++ o.1 })

-- The session answers the oldest request that it has; with none it stays silent.
unfoldable pub answer :
    (Jobs → Option (Jobs × List HttpJob)) → Client → List HttpJob → Option Client
answer handler c [] = some c
answer handler c (request ∷ requests) = sending requests (handler c.jobs)

unfoldable pub step : Client → Input → Option Client
step c (submits category job) = sending c.pending (add_http_job category job c.jobs)
step c (responds ok) = answer (response_received ok) c c.pending
step c fails = answer request_failed c c.pending

unfoldable pub run : Client → List Input → Option Client
run c [] = some c
run c (i ∷ is) = step c i >>= λ after. run after is
