-- ===== src/Worker.antt =====
-- worker.py: the queue of jobs. `run_pipeline` and the fate of the writes that record an outcome are
-- arguments; the other tables are a state that only the pipeline changes.
pub mod Queue
pub mod Batch
mod Examples
use compliance_wizard_engine.Prelude.{
  ℕ, zero, suc, ◌+◌, Bool, true, false, ◌&&◌, Option, none, some, List, [], ◌∷◌, ◌++◌, map, Text,
  text, ltb, ◌==◌, nat_eq, if◌then◌else◌,
}
use compliance_wizard_engine.Vocabulary.{JobStatus, queued, processing, done, failed}
use compliance_wizard_engine.Store.{Job, JobError}

abbrev pub is_queued : Job → Bool
is_queued j = elim j.status [ JobStatus.queued ↦ true | _ ↦ false ]

-- The queued job that was created first.
unfoldable pub oldest : List Job → Option Job
oldest [] = none
oldest (j ∷ jobs) =
    let rest = oldest jobs in
    if is_queued j
    then elim rest [
      | none ↦ some j
      | some k ↦ if ltb k.created_at j.created_at then some k else some j
    ]
    else rest

-- UPDATE of the row with an id
abbrev pub with_job : ℕ → (Job → Job) → Job → Job
with_job id change j = if j.id == id then change j else j

abbrev pub claimed : Job → Job
claimed j = record j { status = JobStatus.processing; attempts = j.attempts + 1 }

abbrev pub with_status : JobStatus → Job → Job
with_status st j = record j { status = st }

-- `_claim_one`: the tables after it, and the id of the job, if there is one.
unfoldable pub claim_one : List Job → List Job × Option ℕ
claim_one jobs = elim (oldest jobs) [
  | none ↦ (jobs, none)
  | some j ↦ (map (with_job j.id claimed) jobs, some j.id)
]

-- The worker's tables, and the rest of the database.
pub record State (W : Type 0) : Type 0 where
  pub jobs : List Job
  pub errors : List JobError
  pub world : W

-- The pipeline's outcome is None, or the last line of its traceback; `recorded` says whether the
-- write of an outcome succeeds.
pub record Environment (W : Type 0) : Type 0 where
  pub run_pipeline : ℕ → W → W × Option Text
  pub recorded : ℕ → W → Bool

module _ {W : Type 0} where
  unfoldable pub record_failure : Environment W → ℕ → Text → State W → State W
  record_failure env id message s =
      if env.recorded id s.world
      then record s {
        jobs = map (with_job id (with_status JobStatus.failed)) s.jobs;
        errors =
            s.errors
            ++ record { job_id = id; stage = text "pipeline"; error_message = message } ∷ [];
      }
      else s

  unfoldable pub record_done : Environment W → ℕ → State W → State W
  record_done env id s =
      if env.recorded id s.world
      then record s { jobs = map (with_job id (with_status JobStatus.done)) s.jobs }
      else s

  -- `_process`, which never raises
  unfoldable pub process : Environment W → ℕ → State W → State W
  process env id s =
      let (world, outcome) = env.run_pipeline id s.world in
      let after = record s { world = world } in
      elim outcome [
        | some message ↦ record_failure env id message after
        | none ↦ record_done env id after
      ]

  -- `run_batch`, with the count of the jobs processed so far
  unfoldable pub run_batch : Environment W → ℕ → ℕ → State W → State W × ℕ
  run_batch env zero n s = (s, n)
  run_batch env (suc size) n s = elim (claim_one s.jobs).1 [
    | none ↦ (s, n)
    | some id ↦
        run_batch env size (n + 1) (process env id (record s { jobs = (claim_one s.jobs).0 }))
  ]
