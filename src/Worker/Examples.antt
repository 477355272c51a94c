-- ===== src/Worker/Examples.antt =====
-- A queue of three jobs, and the theorems of Worker at work on it.
use compliance_wizard_engine.Prelude.{
  ℕ, ◌+◌, ◌≤◌, ◌≡◌, ◌⊎◌, refl, true, Option, none, some, List, [], ◌∷◌, Text, text, if◌then◌else◌,
  ◌==◌, nat_eq,
}
use compliance_wizard_engine.Vocabulary.{JobStatus}
use compliance_wizard_engine.Store.{Job}
use compliance_wizard_engine.Worker.{
  State, Environment, oldest, claim_one, process, record_failure, record_done, run_batch,
}
use compliance_wizard_engine.Worker.Queue.{queued_count}
use compliance_wizard_engine.Worker.Batch.{run_batch_drains}

abbrev job : ℕ → JobStatus → ℕ → Job
job id status created_at = record {
  id = id;
  file_path = none;
  source_url = none;
  source_id = none;
  jurisdiction = none;
  title_hint = none;
  document_type_hint = none;
  celex_hint = none;
  jurisdiction_hint = none;
  status = status;
  attempts = 0;
  created_at = created_at;
}

abbrev jobs : List Job
jobs = job 1 JobStatus.done 1 ∷ job 2 JobStatus.queued 5 ∷ job 3 JobStatus.queued 4 ∷ []

abbrev state : State ℕ
state = record { jobs = jobs; errors = []; world = 0 }

-- The pipeline of this world fails for job 3.
abbrev outcome : ℕ → Option Text
outcome id = if id == 3 then some (text "ValueError") else none

abbrev env : Environment ℕ
env = record { run_pipeline = λ id w. (w + 1, outcome id); recorded = λ id w. true }

claims_oldest : (claim_one jobs).1 ≡ some 3
unfolding claim_one oldest
claims_oldest = refl

two_processed : (run_batch env 5 0 state).1 ≡ 2
unfolding run_batch claim_one oldest process record_failure record_done
two_processed = refl

run_batch_drains_example :
    let (s', m) = run_batch env 5 0 state in
    (m + queued_count s'.jobs ≡ queued_count state.jobs)
    × (m ≤ 5)
    × ((m ≡ 5) ⊎ (queued_count s'.jobs ≡ 0))
run_batch_drains_example = run_batch_drains env 5 state (refl, (refl, (refl, tt)))
