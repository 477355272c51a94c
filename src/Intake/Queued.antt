-- ===== src/Intake/Queued.antt =====
-- What an enqueueing does to the queue.
use compliance_wizard_engine.Prelude.{
  ℕ, ◌+◌, ◌≤◌, ◌≡◌, ◌⊎◌, refl, ap, subst, Bool, true, false, ◌&&◌, ◌||◌, Option, List, [], ◌∷◌,
  ◌++◌, Text, any, any-append, keep, length, upper, strip, ◌==◌, text_eq, text_beq_iff, arith,
  Bool-cases, inl, inr, if◌then◌else◌,
}
use compliance_wizard_engine.Store.{Regulation, Job}
use compliance_wizard_engine.Intake.{
  Tables, catalogued, given_title, flies_for, is_ingested, already_done, already_queued, enqueue,
}

-- The jobs of a source id that are queued or being processed.
abbrev pub in_flight : Text → List Job → ℕ
in_flight id jobs = length (keep (flies_for id) jobs)

-- No source id has two jobs in flight.
abbrev pub IsSingle : List Job → Type 0
IsSingle jobs = (id : Text) → in_flight id jobs ≤ 1

pub none_in_flight :
    (id : Text) (jobs : List Job) → any (flies_for id) jobs ≡ false → in_flight id jobs ≡ 0
none_in_flight id [] h = refl
none_in_flight id (j ∷ jobs) h = ground (arith, none_in_flight id jobs)

pub in_flight-append :
    (id : Text) (jobs : List Job) (job : Job)
    → in_flight id (jobs ++ job ∷ []) ≡ in_flight id jobs + (if flies_for id job then 1 else 0)
in_flight-append id [] job = ground arith
in_flight-append id (j ∷ jobs) job = ground (arith, in_flight-append id jobs job)

-- The regulation of an id is there with content.
abbrev pub has_content : Text → List Regulation → Bool
has_content id regs = any (λ r. r.source_id == id && is_ingested r.ingestion_status) regs

-- The jobs after an enqueueing.
pub enqueue-jobs :
    (celex : Text) (title : Option Text) (t : Tables)
    → let id = upper (strip celex) in
      (enqueue celex title t).0.jobs ≡ (
        if has_content id t.regulations || any (flies_for id) t.jobs
        then t.jobs
        else t.jobs ++ catalogued id (given_title title) t ∷ [])
unfolding enqueue
enqueue-jobs celex title t =
    let id = upper (strip celex) in
    elim (Bool-cases (has_content id t.regulations)) [
      | inl e ↦ rw e refl
      | inr e ↦ elim (Bool-cases (any (flies_for id) t.jobs)) [
        | inl k ↦ rw (e, k) refl
        | inr k ↦ rw (e, k) refl
      ]
    ]

same_count : (own id : Text) (jobs : List Job) → own ≡ id → in_flight own jobs ≡ in_flight id jobs
same_count own id jobs e = ap (λ s. in_flight s jobs) e

pub enqueue-IsSingle :
    (celex : Text) (title : Option Text) (t : Tables)
    → IsSingle t.jobs
    → IsSingle (enqueue celex title t).0.jobs
enqueue-IsSingle celex title t h id =
    let own = upper (strip celex) in
    let job = catalogued own (given_title title) t in
    rw (enqueue-jobs celex title t)
      (elim (Bool-cases (has_content own t.regulations || any (flies_for own) t.jobs)) [
        | inl e ↦ rw e (h id)
        | inr e ↦ rw e (
            ground (
              arith,
              in_flight-append id t.jobs job,
              h id,
              none_in_flight own t.jobs,
              text_beq_iff own id,
              same_count own id t.jobs,
            ))
      ])

-- The id has content or a job in flight.
abbrev pub is_known : Text → Tables → Bool
is_known id t = has_content id t.regulations || any (flies_for id) t.jobs

known_after :
    (celex : Text) (title : Option Text) (t : Tables)
    → is_known (upper (strip celex)) (enqueue celex title t).0 ≡ true
unfolding enqueue
known_after celex title t =
    let id = upper (strip celex) in
    let job = catalogued id (given_title title) t in
    elim (Bool-cases (has_content id t.regulations)) [
      | inl e ↦ rw e (ground (arith, e))
      | inr e ↦ elim (Bool-cases (any (flies_for id) t.jobs)) [
        | inl k ↦ rw (e, k) (ground (arith, k))
        | inr k ↦
            rw (e, k)
              (ground (arith, any-append (flies_for id) t.jobs (job ∷ []), text_beq_iff id id))
      ]
    ]

refusal :
    (celex : Text) (title : Option Text) (t : Tables)
    → is_known (upper (strip celex)) t ≡ true
    → let (after, message) = enqueue celex title t in
      (after.jobs ≡ t.jobs)
      × ((message ≡ already_done (upper (strip celex)))
          ⊎ (message ≡ already_queued (upper (strip celex))))
unfolding enqueue
refusal celex title t h =
    let id = upper (strip celex) in
    elim (Bool-cases (has_content id t.regulations)) [
      | inl e ↦ rw e (refl, inl refl)
      | inr e ↦
          let k : any (flies_for id) t.jobs ≡ true = ground arith in rw (e, k) (refl, inr refl)
    ]

-- A second enqueueing of an id changes nothing, whatever its spelling in case and white space, and
-- says so.
pub enqueue_twice :
    (celex again : Text) (title other : Option Text) (t : Tables)
    → upper (strip celex) ≡ upper (strip again)
    → let (after, message) = enqueue again other (enqueue celex title t).0 in
      (after.jobs ≡ (enqueue celex title t).0.jobs)
      × ((message ≡ already_done (upper (strip again)))
          ⊎ (message ≡ already_queued (upper (strip again))))
enqueue_twice celex again title other t same =
    refusal again other (enqueue celex title t).0
      (subst (λ id. is_known id (enqueue celex title t).0 ≡ true) same (known_after celex title t))
