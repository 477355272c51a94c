-- ===== src/Intake.antt =====
-- adapters/base.py, adapters/upload.py, scripts/enqueue.py and the enqueueing endpoint of
-- ui/api/imports.py: how a document becomes a job. The catalogue's file, the file store and the random
-- prefix of a stored name are arguments; the hints that no later step reads are left out.
pub mod Queued
pub mod Interleaved
mod Examples
use compliance_wizard_engine.Prelude.{
  ℕ, zero, suc, ◌+◌, Bool, true, false, ◌&&◌, ◌||◌, not, Option, none, some, is_some, List, [], ◌∷◌,
  ◌++◌, Text, text, is_nil, text_or, is_digit, is_alnum, is_upper, is_lower, is_space, upper, strip,
  drop_while, take_while, take, drop, length, any, find, leb, ◌==◌, nat_eq, text_eq, if◌then◌else◌,
}
use compliance_wizard_engine.Vocabulary.{
  JobStatus, queued, processing, done, failed, IngestionStatus,
}
use compliance_wizard_engine.Store.{Regulation, Job}
use compliance_wizard_engine.Ui.Tables.{Response, ok, error, bad_request}

-- The tables that an intake reads and writes; `fresh` stands for gen_random_uuid, `now` for the clock.
pub record Tables : Type 0 where
  pub regulations : List Regulation
  pub jobs : List Job
  pub fresh : ℕ
  pub now : ℕ

-- `_SAFE.sub("_", filename)`: each run of other characters becomes one "_".
abbrev is_safe : ℕ → Bool
is_safe c = is_alnum c || c == b'.' || c == b'_' || c == b'-'

unfoldable pub safe_from : Bool → Text → Text
safe_from in_run [] = []
safe_from in_run (c ∷ s) =
    let rest = safe_from (not (is_safe c)) s in
    if is_safe c then c ∷ rest else if in_run then rest else b'_' ∷ rest

-- The name of `_save_pdf`, behind a random prefix.
unfoldable pub stored_name : Text → Text → Text
unfolding safe_from
stored_name token filename =
    token ++ (text "_" ++ text_or (safe_from false filename) (text "document.pdf"))

-- `[0-9]{5}[A-Z]{1,2}[0-9]{3,4}` at the start of a text: letters in either case, and the most digits.
abbrev is_letter : ℕ → Bool
is_letter c = is_upper c || is_lower c

unfoldable pub celex_at : Text → Option Text
celex_at s =
    let year = take_while is_digit (take 5 s) in
    let letters = take_while is_letter (take 3 (drop 5 s)) in
    let number = take_while is_digit (take 4 (drop (5 + length letters) s)) in
    if length year == 5
      && (leb 1 (length letters) && (leb (length letters) 2 && leb 3 (length number)))
    then some (year ++ (letters ++ number))
    else none

abbrev is_separator : ℕ → Bool
is_separator c = c == b'_' || c == b':' || c == b'-' || is_space c

-- `_CELEX_RE.search(filename)`, its group 1 in upper case
unfoldable pub detect_celex : Text → Option Text
unfolding celex_at
detect_celex [] = none
detect_celex (c ∷ s) =
    let later = detect_celex s in
    let here = celex_at (drop_while is_separator (drop 5 (c ∷ s))) in
    if upper (take 5 (c ∷ s)) == text "CELEX" && is_some here
    then elim here [ none ↦ none | some t ↦ some (upper t) ]
    else later

-- _DESCRIPTOR_TO_TYPE at the character of index 5
unfoldable pub document_type_of : Text → Option Text
document_type_of celex = elim (drop 5 celex) [
  | [] ↦ none
  | c ∷ rest ↦
      if c == b'L'
      then some (text "Directive")
      else if c == b'R'
      then some (text "Regulation")
      else if c == b'D'
      then some (text "Decision")
      else none
]

-- `_register_job`, and the row that `enqueue` adds
abbrev pub add_job : Job → Tables → Tables × Job
add_job job t = (record t { jobs = t.jobs ++ job ∷ []; fresh = suc t.fresh }, job)

abbrev pub new_job : Tables → Job
new_job t = record {
  id = t.fresh;
  file_path = none;
  source_url = none;
  source_id = none;
  jurisdiction = none;
  title_hint = none;
  document_type_hint = none;
  celex_hint = none;
  jurisdiction_hint = none;
  status = JobStatus.queued;
  attempts = 0;
  created_at = t.now;
}

-- `UploadAdapter.fetch` of an existing file: its name, and the path under which its content is stored.
unfoldable pub fetch : Text → Text → Tables → Tables × Job
unfolding detect_celex document_type_of
fetch name dest t = elim (detect_celex name) [
  | none ↦ add_job (record (new_job t) { file_path = some dest }) t
  | some celex ↦
      add_job
        (record (new_job t) {
          file_path = some dest;
          source_id = some celex;
          jurisdiction = some (text "EU");
          celex_hint = some celex;
          document_type_hint = document_type_of celex;
        })
        t
]

abbrev pub is_source : Text → Option Text → Bool
is_source id none = false
is_source id (some t) = t == id

-- `_already_ingested`, which no adapter calls
unfoldable pub already_ingested : Option Text → Tables → Bool
already_ingested none t = false
already_ingested (some id) t =
    not (is_nil id)
    && (any (λ r. r.source_id == id) t.regulations || any (λ j. is_source id j.source_id) t.jobs)

-- _IN_FLIGHT
abbrev pub is_in_flight : JobStatus → Bool
is_in_flight queued = true
is_in_flight processing = true
is_in_flight _ = false

abbrev pub flies_for : Text → Job → Bool
flies_for id j = is_source id j.source_id && is_in_flight j.status

abbrev pub is_ingested : IngestionStatus → Bool
is_ingested IngestionStatus.ingested = true
is_ingested _ = false

pub data Message : Type 0 where
  already_done : Text → Message
  already_queued : Text → Message
  queued_as : Text → (job : ℕ) → Message

abbrev pub catalogued : Text → Option Text → Tables → Job
catalogued id title t = record (new_job t) {
  source_id = some id;
  jurisdiction = some (text "EU");
  celex_hint = some id;
  title_hint = title;
  document_type_hint = document_type_of id;
}

abbrev pub given_title : Option Text → Option Text
given_title none = none
given_title (some s) = if is_nil s then none else some s

-- `enqueue`
unfoldable pub enqueue : Text → Option Text → Tables → Tables × Message
unfolding document_type_of
enqueue celex title t =
    let id = upper (strip celex) in
    if any (λ r. r.source_id == id && is_ingested r.ingestion_status) t.regulations
    then (t, already_done id)
    else if any (flies_for id) t.jobs
    then (t, already_queued id)
    else let (after, job) = add_job (catalogued id (given_title title) t) t in
      (after, queued_as id job.id)

-- `enqueue_celex`
unfoldable pub enqueue_celex : Text → Option Text → Tables → Tables × Response Message
unfolding enqueue
enqueue_celex celex title t =
    if is_nil (strip celex)
    then (t, error bad_request)
    else let (after, message) = enqueue (strip celex) title t in (after, ok message)

-- `main`: the ids of the catalogue, or those given, one after the other
unfoldable pub enqueue_all : List (Text × Option Text) → Tables → Tables × List Message
unfolding enqueue
enqueue_all [] t = (t, [])
enqueue_all ((celex, title) ∷ more) t =
    let (after, message) = enqueue celex title t in
    let (final, messages) = enqueue_all more after in (final, message ∷ messages)
