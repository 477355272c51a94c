-- ===== src/Intake/Interleaved.antt =====
-- Enqueueings and the worker's steps in any order: each is one transaction.
use compliance_wizard_engine.Prelude.{
  ℕ, ◌+◌, ◌≤◌, ◌<◌, ◌≡◌, refl, subst, ap, ◌∙◌, Bool, true, false, ◌&&◌, Option, some, List, [], ◌∷◌,
  ◌++◌, map, Text, any, any-append, All, All-append, All-map, upper, strip, ◌==◌, nat_eq, text_eq,
  nat_beq_iff, text_beq_iff, arith, Bool-cases, Option-cases, inl, inr, if◌then◌else◌,
}
use compliance_wizard_engine.Vocabulary.{JobStatus, done, failed}
use compliance_wizard_engine.Store.{Regulation, Job}
use compliance_wizard_engine.Worker.{oldest, with_job, claimed, with_status, claim_one}
use compliance_wizard_engine.Worker.Queue.{
  IsKeyedJobs, has_id, absent-queued, is_queued_id, Settles, IsKeyedJobs-map, claimed-Settles,
  oldest-some, claim_one-none, claim_one-some,
}
use compliance_wizard_engine.Intake.{
  Tables, catalogued, given_title, flies_for, enqueue, detect_celex, fetch,
}
use compliance_wizard_engine.Intake.Queued.{
  in_flight, IsSingle, in_flight-append, has_content, enqueue-jobs, enqueue-IsSingle,
}

-- A job's outcome takes it out of flight.
abbrev pub is_outcome : JobStatus → Bool
is_outcome done = true
is_outcome failed = true
is_outcome _ = false

abbrev pub settled_jobs : ℕ → JobStatus → List Job → List Job
settled_jobs id st jobs = map (with_job id (with_status st)) jobs

-- A step: the API or the script enqueues, a worker claims a job or records an outcome, or the pipeline
-- changes the regulations.
pub data Step : Tables → Tables → Type 0 where
  enqueues : (t : Tables) (celex : Text) (title : Option Text) → Step t (enqueue celex title t).0
  claims : (t : Tables) → Step t (record t { jobs = (claim_one t.jobs).0 })
  settles :
      (t : Tables) (id : ℕ) (st : JobStatus)
      → is_outcome st ≡ true
      → Step t (record t { jobs = settled_jobs id st t.jobs })
  ingests : (t : Tables) (regs : List Regulation) → Step t (record t { regulations = regs })

pub data Reaches (s : Tables) : Tables → Type 0 where
  here : Reaches s s
  next : {t u : Tables} → Reaches s t → Step t u → Reaches s u

pub record IsSound (t : Tables) : Type 0 where
  pub single : IsSingle t.jobs
  pub keyed : IsKeyedJobs t.jobs
  pub below : All (λ j. j.id < t.fresh) t.jobs

in_flight-absent :
    (sid : Text) (id : ℕ) (change : Job → Job) (jobs : List Job)
    → any (has_id id) jobs ≡ false
    → in_flight sid (map (with_job id change) jobs) ≡ in_flight sid jobs
in_flight-absent sid id change [] h = refl
in_flight-absent sid id change (j ∷ jobs) h = ground (arith, in_flight-absent sid id change jobs)

in_flight-claimed :
    (sid : Text) (id : ℕ) (jobs : List Job)
    → IsKeyedJobs jobs
    → any (is_queued_id id) jobs ≡ true
    → in_flight sid (map (with_job id claimed) jobs) ≡ in_flight sid jobs
in_flight-claimed sid id [] k h = cc
in_flight-claimed sid id (j ∷ jobs) k h = elim (Bool-cases (j.id == id)) [
  | inl e ↦
      let same : j.id ≡ id = (nat_beq_iff j.id id).0 e in
      let absent : any (has_id id) jobs ≡ false =
        subst (λ n. any (has_id n) jobs ≡ false) same k.0 in
      ground (arith, in_flight-absent sid id claimed jobs absent, absent-queued id jobs absent, e)
  | inr e ↦ ground (arith, in_flight-claimed sid id jobs k.1, e)
]

in_flight-settled :
    (sid : Text) (id : ℕ) (st : JobStatus) (jobs : List Job)
    → is_outcome st ≡ true
    → in_flight sid (settled_jobs id st jobs) ≤ in_flight sid jobs
in_flight-settled sid id st [] h = omega arith
in_flight-settled sid id st (j ∷ jobs) h = ground (arith, in_flight-settled sid id st jobs h)

fresh-absent : (n : ℕ) (jobs : List Job) → All (λ j. j.id < n) jobs → any (has_id n) jobs ≡ false
fresh-absent n [] h = refl
fresh-absent n (j ∷ jobs) h = ground (arith, fresh-absent n jobs h.1, nat_beq_iff j.id n, h.0)

IsKeyedJobs-append :
    (jobs : List Job) (job : Job)
    → IsKeyedJobs jobs
    → any (has_id job.id) jobs ≡ false
    → IsKeyedJobs (jobs ++ job ∷ [])
IsKeyedJobs-append [] job k h = (refl, tt)
IsKeyedJobs-append (j ∷ jobs) job k h = (
  any-append (has_id j.id) jobs (job ∷ [])
      ∙ ground (arith, k.0, nat_beq_iff j.id job.id, nat_beq_iff job.id j.id),
  IsKeyedJobs-append jobs job k.1 (ground arith),
)

below-map :
    (n id : ℕ) (change : Job → Job) (jobs : List Job)
    → ((j : Job) → (change j).id ≡ j.id)
    → All (λ j. j.id < n) jobs
    → All (λ j. j.id < n) (map (with_job id change) jobs)
below-map n id change [] s h = tt
below-map n id change (j ∷ jobs) s h = (ground (arith, s j, h.0), below-map n id change jobs s h.1)

with_status-Settles : (st : JobStatus) → is_outcome st ≡ true → Settles (with_status st)
with_status-Settles JobStatus.done h j = (refl, refl)
with_status-Settles JobStatus.failed h j = (refl, refl)
with_status-Settles JobStatus.queued h j = absurd (ground arith)
with_status-Settles JobStatus.processing h j = absurd (ground arith)

settles-IsSound :
    (t : Tables) (id : ℕ) (st : JobStatus)
    → is_outcome st ≡ true
    → IsSound t
    → IsSound (record t { jobs = settled_jobs id st t.jobs })
settles-IsSound t id st e h = record {
  single = λ sid. omega (arith, in_flight-settled sid id st t.jobs e, h.single sid);
  keyed = IsKeyedJobs-map id (with_status st) t.jobs (with_status-Settles st e) h.keyed;
  below = below-map t.fresh id (with_status st) t.jobs (λ j. refl) h.below;
}

claims-IsSound : (t : Tables) → IsSound t → IsSound (record t { jobs = (claim_one t.jobs).0 })
claims-IsSound t h = elim (Option-cases (oldest t.jobs)) [
  | inl e ↦
      rw (claim_one-none t.jobs e) (record { single = h.single; keyed = h.keyed; below = h.below })
  | inr (j, e) ↦ rw (claim_one-some t.jobs j e) (record {
    single = λ sid.
        omega
          (arith, in_flight-claimed sid j.id t.jobs h.keyed (oldest-some t.jobs j e), h.single sid);
    keyed = IsKeyedJobs-map j.id claimed t.jobs claimed-Settles h.keyed;
    below = below-map t.fresh j.id claimed t.jobs (λ k. refl) h.below;
  })
]

enqueues-IsSound :
    (t : Tables) (celex : Text) (title : Option Text)
    → IsSound t
    → IsSound (enqueue celex title t).0
unfolding enqueue
enqueues-IsSound t celex title h =
    let id = upper (strip celex) in
    let job = catalogued id (given_title title) t in
    let single = enqueue-IsSingle celex title t h.single in
    elim (Bool-cases (has_content id t.regulations)) [
      | inl e ↦ rw e h
      | inr e ↦ elim (Bool-cases (any (flies_for id) t.jobs)) [
        | inl k ↦ rw (e, k) h
        | inr k ↦
            let added : (enqueue celex title t).0.jobs ≡ t.jobs ++ job ∷ [] =
              enqueue-jobs celex title t ∙ rw (e, k) refl in
            let alone = subst IsSingle added single in
            rw (e, k)
              (record {
                single = alone;
                keyed = IsKeyedJobs-append t.jobs job h.keyed (fresh-absent t.fresh t.jobs h.below);
                below =
                    All-append _ t.jobs (job ∷ [])
                      (All-map _ _ (λ j below. omega (arith, below)) t.jobs h.below)
                      (omega arith, tt);
              })
      ]
    ]

Step-IsSound : {t u : Tables} → Step t u → IsSound t → IsSound u
Step-IsSound (enqueues t celex title) h = enqueues-IsSound t celex title h
Step-IsSound (claims t) h = claims-IsSound t h
Step-IsSound (settles t id st e) h = settles-IsSound t id st e h
Step-IsSound (ingests t regs) h = record { single = h.single; keyed = h.keyed; below = h.below }

-- Whatever the order of enqueueings of the API and the script, of the worker's claims and outcomes and
-- of the pipeline's changes to the regulations, no CELEX id has two jobs queued or being processed at
-- once, and no two jobs share an id, if this held at the start. Uploads are no such step.
pub Reaches-IsSound : {s t : Tables} → IsSound s → Reaches s t → IsSound t
Reaches-IsSound h here = h
Reaches-IsSound h (next r step) = Step-IsSound step (Reaches-IsSound h r)

-- An upload whose name carries a CELEX id adds a job in flight for that id, however many there are.
pub fetch_repeats :
    (name dest : Text) (t : Tables) {id : Text}
    → detect_celex name ≡ some id
    → in_flight id (fetch name dest t).0.jobs ≡ in_flight id t.jobs + 1
unfolding fetch
fetch_repeats name dest t {id} e =
    rw (e, fetch)
      (in_flight-append id t.jobs _
        ∙ ap (λ b. in_flight id t.jobs + (if b && true then 1 else 0))
            ((text_beq_iff id id).1 refl))
