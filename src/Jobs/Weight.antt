-- ===== src/Jobs/Weight.antt =====
-- Sums over the jobs of all queues, and how writing to a queue changes them.
use synergy_hogsback.Prelude.{
  ℕ, zero, suc, ◌+◌, ◌<◌, ◌≡◌, refl, ap, ◌∙◌, List, [], ◌∷◌, ◌++◌, none, some, arith, length,
  get_elem?, set,
}
use synergy_hogsback.Jobs.Queues.{push_at, first_job}

module _ {A : Type 0} (weight : A → ℕ) where
  abbrev pub weight_of : List A → ℕ
  weight_of [] = 0
  weight_of (job ∷ jobs) = weight job + weight_of jobs

  abbrev pub weigh : List (List A) → ℕ
  weigh [] = 0
  weigh (q ∷ qs) = weight_of q + weigh qs

  weight_of-snoc : (q : List A) (job : A) → weight_of (q ++ job ∷ []) ≡ weight_of q + weight job
  weight_of-snoc [] job = omega arith
  weight_of-snoc (x ∷ q) job = omega (arith, weight_of-snoc q job)

  pub weigh-push_at :
      (i : ℕ) (job : A) (qs : List (List A))
      → i < length qs
      → weigh (push_at i job qs) ≡ weigh qs + weight job
  unfolding push_at
  weigh-push_at i job [] h = absurd (omega arith)
  weigh-push_at zero job (q ∷ qs) h = omega (arith, weight_of-snoc q job)
  weigh-push_at (suc i) job (q ∷ qs) h = omega (arith, weigh-push_at i job qs (omega arith))

  pub weigh-set :
      (qs : List (List A)) (i : ℕ) (q' : List A) {q : List A}
      → get_elem? qs i ≡ some q
      → weigh (set qs i q') + weight_of q ≡ weigh qs + weight_of q'
  weigh-set [] i q' h = cc
  weigh-set (x ∷ qs) zero q' {q} h = let same : x ≡ q = cc in rw same (omega arith)
  weigh-set (x ∷ qs) (suc i) q' {q} h = omega (arith, weigh-set qs i q' h)

module _ {A : Type 0} where
  abbrev pub total : List (List A) → ℕ
  total = weigh (λ (job : A). 1)

  pub length-push_at :
      (i : ℕ) (job : A) (qs : List (List A)) → length (push_at i job qs) ≡ length qs
  unfolding push_at
  length-push_at i job [] = refl
  length-push_at zero job (q ∷ qs) = refl
  length-push_at (suc i) job (q ∷ qs) = ap suc (length-push_at i job qs)

  pub length-set : (qs : List (List A)) (i : ℕ) (q : List A) → length (set qs i q) ≡ length qs
  length-set [] i q = refl
  length-set (x ∷ qs) zero q = refl
  length-set (x ∷ qs) (suc i) q = ap suc (length-set qs i q)

  some_eq : {xs ys : List A} → some xs ≡ some ys → xs ≡ ys
  some_eq h = cc

  -- A queue with a job at its front keeps that job at its front.
  pub record Fronted (qs : List (List A)) (i : ℕ) (job : A) : Type 0 where
    pub jobs : List A
    pub is_front : get_elem? qs i ≡ some (job ∷ jobs)

  pub Fronted-push_at :
      (qs : List (List A)) (i k : ℕ) (job new : A)
      → Fronted qs i job
      → Fronted (push_at k new qs) i job
  unfolding push_at
  Fronted-push_at [] i k job new h = h
  Fronted-push_at (q ∷ qs) zero zero job new h = record {
    jobs = h.jobs ++ new ∷ [];
    is_front = let same : q ≡ job ∷ h.jobs = some_eq h.is_front in rw same refl;
  }
  Fronted-push_at (q ∷ qs) zero (suc k) job new h = record { jobs = h.jobs; is_front = h.is_front }
  Fronted-push_at (q ∷ qs) (suc i) zero job new h = record { jobs = h.jobs; is_front = h.is_front }
  Fronted-push_at (q ∷ qs) (suc i) (suc k) job new h =
      let later =
        Fronted-push_at qs i k job new (record { jobs = h.jobs; is_front = h.is_front }) in
      record { jobs = later.jobs; is_front = later.is_front }

  pub Fronted-total : (qs : List (List A)) (i : ℕ) (job : A) → Fronted qs i job → 0 < total qs
  Fronted-total [] i job h = absurd (none_is_not h.is_front)
    where
      none_is_not : {x : List A} → none ≡ some x → ⊥
      none_is_not h = cc
  Fronted-total (q ∷ qs) zero job h =
      let same : q ≡ job ∷ h.jobs = some_eq h.is_front in rw same (omega arith)
  Fronted-total (q ∷ qs) (suc i) job h =
      let later = Fronted-total qs i job (record { jobs = h.jobs; is_front = h.is_front }) in
      omega arith

  abbrev pub flatten : List (List A) → List A
  flatten [] = []
  flatten (q ∷ qs) = q ++ flatten qs

  -- What `nextJob` finds: a queue, and its front, which is the first of all jobs.
  pub record Found (index : ℕ) (qs : List (List A)) : Type 0 where
    pub place : ℕ
    pub job : A
    pub is_found : first_job index qs ≡ some (index + place, job)
    pub within : place < length qs
    pub fronted : Fronted qs place job
    pub others : List A
    pub is_first : flatten qs ≡ job ∷ others

  pub first_job-Found : (index : ℕ) (qs : List (List A)) → 0 < total qs → Found index qs
  unfolding first_job
  first_job-Found index [] h = absurd (omega arith)
  first_job-Found index ([] ∷ qs) h =
      let later = first_job-Found (index + 1) qs (omega arith) in
      let moved : index + 1 + later.place ≡ index + suc later.place = omega arith in
      let within = later.within in
      record {
        place = suc later.place;
        job = later.job;
        is_found = later.is_found ∙ ap (λ k. some (k, later.job)) moved;
        within = omega arith;
        fronted = record { jobs = later.fronted.jobs; is_front = later.fronted.is_front };
        others = later.others;
        is_first = later.is_first;
      }
  first_job-Found index ((job ∷ jobs) ∷ qs) h = record {
    place = 0;
    job = job;
    is_found = ap (λ k. some (k, job)) (omega arith);
    within = omega arith;
    fronted = record { jobs = jobs; is_front = refl };
    others = jobs ++ flatten qs;
    is_first = refl;
  }
