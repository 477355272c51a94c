-- ===== src/Ui/Jobs.antt =====
-- ui/api/jobs.py: the ingestion jobs, newest activity first, with a summary of their states. The column
-- `updated_at` is an argument; errors are listed in the order of their creation.
use compliance_wizard_engine.Prelude.{
  ℕ, ◌+◌, Bool, true, false, Option, none, some, List, [], ◌∷◌, map, Text, text, opt_text_or,
  text_or, keep, length, leb, ◌==◌, nat_eq, text_eq, if◌then◌else◌, sort,
}
use compliance_wizard_engine.Vocabulary.{JobStatus, queued, processing, done, failed}
use compliance_wizard_engine.Store.{Job, JobError}
use compliance_wizard_engine.Ui.Pagination.{ℤ, pos, Page, clamp_per_page, build_page, page_of}

-- `status if status in _STATUS_ORDER else ""`
unfoldable pub valid_status : Text → Option JobStatus
valid_status t =
    if t == text "queued"
    then some queued
    else if t == text "processing"
    then some processing
    else if t == text "done"
    then some done
    else if t == text "failed"
    then some failed
    else none

abbrev pub same_status : JobStatus → JobStatus → Bool
same_status queued queued = true
same_status processing processing = true
same_status done done = true
same_status failed failed = true
same_status _ _ = false

-- The count of a status among all jobs.
abbrev pub status_count : List Job → JobStatus → ℕ
status_count jobs st = length (keep (λ j. same_status st j.status) jobs)

-- _STATUS_ORDER
abbrev pub status_order : List JobStatus
status_order = queued ∷ processing ∷ done ∷ failed ∷ []

abbrev pub status_summary : List Job → List (JobStatus × ℕ)
status_summary jobs = map (λ st. (st, status_count jobs st)) status_order

-- `sum(counts.values())`
abbrev pub sum_of : List (JobStatus × ℕ) → ℕ
sum_of [] = 0
sum_of ((st, n) ∷ counts) = n + sum_of counts

unfoldable pub filtered_total : Option JobStatus → List Job → ℕ
filtered_total none jobs = sum_of (status_summary jobs)
filtered_total (some st) jobs = status_count jobs st

abbrev pub passes : Option JobStatus → Job → Bool
passes none j = true
passes (some st) j = same_status st j.status

-- `_job_label`
unfoldable pub job_label : Job → Text
job_label j =
    opt_text_or j.source_id
      (opt_text_or j.file_path (opt_text_or j.source_url (text "(unidentified)")))

-- The last of the errors of a job.
unfoldable pub latest_error : ℕ → List JobError → Option JobError
latest_error id [] = none
latest_error id (e ∷ errors) = elim (latest_error id errors) [
  | some later ↦ some later
  | none ↦ if e.job_id == id then some e else none
]

-- The stage and the message that a failed job shows.
unfoldable pub shown_error : List JobError → Job → Option (Text × Text)
unfolding latest_error
shown_error errors j = elim j.status [
  | failed ↦ elim (latest_error j.id errors) [
    | none ↦ none
    | some e ↦
        some (text_or e.stage (text "pipeline"), text_or e.error_message (text "unknown error"))
  ]
  | _ ↦ none
]

pub record JobItem : Type 0 where
  pub id : ℕ
  pub label : Text
  pub source_id : Text
  pub jurisdiction : Text
  pub status : JobStatus
  pub attempts : ℕ
  pub error : Option (Text × Text)
  pub created_at : ℕ
  pub updated_at : ℕ

pub record JobsPage : Type 0 where
  pub rows : List JobItem
  pub page : Page
  pub summary : List (JobStatus × ℕ)
  pub status : Option JobStatus

unfoldable pub job_item : (Job → ℕ) → List JobError → Job → JobItem
unfolding job_label shown_error
job_item updated_at errors j = record {
  id = j.id;
  label = job_label j;
  source_id = opt_text_or j.source_id [];
  jurisdiction = opt_text_or j.jurisdiction [];
  status = j.status;
  attempts = j.attempts;
  error = shown_error errors j;
  created_at = j.created_at;
  updated_at = updated_at j;
}

-- ORDER BY updated_at DESC, under the filter
unfoldable pub listed_jobs : (Job → ℕ) → Option JobStatus → List Job → List Job
listed_jobs updated_at status table =
    sort (λ a b. leb (updated_at b) (updated_at a)) (keep (passes status) table)

-- `jobs`
unfoldable pub jobs : (Job → ℕ) → List JobError → List Job → Text → ℤ → ℤ → JobsPage
unfolding filtered_total job_item listed_jobs
jobs updated_at errors table status page per_page =
    let valid = valid_status status in
    let pg = build_page page (pos (clamp_per_page per_page)) (filtered_total valid table) in
    record {
      rows = map (job_item updated_at errors) (page_of pg (listed_jobs updated_at valid table));
      page = pg;
      summary = status_summary table;
      status = valid;
    }
