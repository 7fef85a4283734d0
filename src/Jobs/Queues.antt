-- ===== src/Jobs/Queues.antt =====
-- PriorityJobQueues.h: queues of jobs, the first one the most urgent. `none` stands for a bare
-- `throw`, which ends the program, and for `front` or `pop` of an empty queue, which C++ leaves
-- undefined.
use synergy_hogsback.Prelude.{
  ℕ, zero, suc, ◌+◌, ◌-◌, ◌%◌, ◌^◌, Bool, true, false, not, leb, ◌==◌, if◌then◌else◌, List, [], ◌∷◌,
  ◌++◌, Option, none, some, length, get_elem?, set,
}

-- `m_currentJobQueueIndex`: `none` is -1, the only negative value that it takes.
pub record PriorityJobQueues (A : Type 0) : Type 0 where
  pub queues : List (List A)
  pub size : ℕ
  pub current : Option ℕ

infixl 5 ◌>>=◌
abbrev pub ◌>>=◌ : {A B : Type 0} → Option A → (A → Option B) → Option B
none >>= f = none
some a >>= f = f a

module _ {A : Type 0} where
  unfoldable pub empty_queues : ℕ → List (List A)
  empty_queues zero = []
  empty_queues (suc n) = [] ∷ empty_queues n

  unfoldable pub priority_job_queues : ℕ → PriorityJobQueues A
  priority_job_queues n = record { queues = empty_queues n; size = 0; current = none }

  unfoldable pub push_at : ℕ → A → List (List A) → List (List A)
  push_at i job [] = []
  push_at zero job (q ∷ qs) = (q ++ job ∷ []) ∷ qs
  push_at (suc i) job (q ∷ qs) = q ∷ push_at i job qs

  unfoldable pub append_queue : PriorityJobQueues A → PriorityJobQueues A
  append_queue p = record p { queues = p.queues ++ [] ∷ [] }

  unfoldable pub append_job : PriorityJobQueues A → ℕ → A → PriorityJobQueues A × Bool
  append_job p index job =
      if leb (length p.queues) index
      then (p, false)
      else (record p { queues = push_at index job p.queues; size = (p.size + 1) % 2 ^ 64 }, true)

  unfoldable pub has_job : PriorityJobQueues A → Bool
  has_job p = not (p.size == 0)

  unfoldable pub front : List A → Option A
  front [] = none
  front (job ∷ jobs) = some job

  unfoldable pub pop : List A → Option (List A)
  pop [] = none
  pop (job ∷ jobs) = some jobs

  -- The index of the current queue, if there is one.
  unfoldable pub current_queue : PriorityJobQueues A → Option ℕ
  current_queue p = p.current >>= λ i. if leb (length p.queues) i then none else some i

  unfoldable pub current_job : PriorityJobQueues A → Option A
  current_job p = current_queue p >>= λ i. get_elem? p.queues i >>= front

  -- The loop of `nextJob`.
  unfoldable pub first_job : ℕ → List (List A) → Option (ℕ × A)
  first_job index [] = none
  first_job index ([] ∷ qs) = first_job (index + 1) qs
  first_job index ((job ∷ jobs) ∷ qs) = some (index, job)

  unfoldable pub next_job : PriorityJobQueues A → Option (PriorityJobQueues A × A)
  next_job p = first_job 0 p.queues >>= λ found. some (record p { current = some found.0 }, found.1)

  unfoldable pub pop_job : PriorityJobQueues A → Option (PriorityJobQueues A)
  pop_job p = current_queue p >>= λ i. get_elem? p.queues i >>= λ q. pop q >>= λ jobs.
      some (record p { queues = set p.queues i jobs; size = (p.size + (2 ^ 64 - 1)) % 2 ^ 64 })

  -- The queues after a write through the reference that `currentJob` returns.
  unfoldable pub set_current_job : PriorityJobQueues A → A → Option (PriorityJobQueues A)
  set_current_job p job = current_queue p >>= λ i. get_elem? p.queues i >>= λ q.
      pop q >>= λ jobs. some (record p { queues = set p.queues i (job ∷ jobs) })
