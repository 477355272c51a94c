-- ===== src/Ui/BrowsingExamples.antt =====
-- The lists of jobs and of fields on small tables, and the theorems of Ui on them at work.
use compliance_wizard_engine.Prelude.{
  ℕ, ◌≡◌, refl, none, some, List, [], ◌∷◌, map, Text, text, text_beq, length, thousandths,
}
use compliance_wizard_engine.Vocabulary.{
  JobStatus, IngestionStatus, ReviewStatus, auto_approved, human_approved,
}
use compliance_wizard_engine.Store.{Regulation, RegulationField, Job, JobError}
use compliance_wizard_engine.Ui.Jobs.{latest_error, shown_error}
use compliance_wizard_engine.Ui.ReviewHelpers.{display_value}
use compliance_wizard_engine.Ui.Regulations.{
  uniform, mixed, add_entry, grouped_into, group_status, field_group, entry_of, entries_for,
  relationships_for, hs_for, RegulationDetail,
}

abbrev job : ℕ → JobStatus → Job
job id status = record {
  id = id;
  file_path = none;
  source_url = none;
  source_id = none;
  jurisdiction = none;
  title_hint = none;
  document_type_hint = none;
  celex_hint = none;
  jurisdiction_hint = none;
  status = status;
  attempts = 1;
  created_at = id;
}

abbrev table : List Job
table = job 1 JobStatus.failed ∷ job 2 JobStatus.queued ∷ job 3 JobStatus.failed ∷ []

abbrev updated_at : Job → ℕ
updated_at j = j.id

abbrev errors : List JobError
errors =
    record { job_id = 1; stage = text "read"; error_message = text "no such file" }
    ∷ record { job_id = 1; stage = []; error_message = text "timeout" }
    ∷ []

-- A failed job shows its last error.
last_shown : shown_error errors (job 1 JobStatus.failed) ≡ some (text "pipeline", text "timeout")
unfolding shown_error latest_error
last_shown = refl

abbrev stored : Text → ReviewStatus → ℕ → RegulationField ℕ
stored name status confidence = record {
  regulation_id = 1;
  field_name = name;
  value_text = some (text "A");
  value_json = none;
  reference = none;
  confidence = some confidence;
  source_segment_index = none;
  review_status = status;
  reviewer_note = none;
  reviewer_id = none;
}

abbrev fields : List (RegulationField ℕ)
fields =
    stored (text "marking") auto_approved 900
    ∷ stored (text "hs_code") auto_approved 950
    ∷ stored (text "marking") human_approved 600
    ∷ []

-- A field that a reviewer has approved counts as pending in a group with another status.
approved_counts_as_pending :
    map (λ g. group_status g) (grouped_into [] (map entry_of fields))
    ≡ mixed 1 2 ∷ uniform auto_approved ∷ []
unfolding group_status grouped_into add_entry entry_of display_value text_beq
approved_counts_as_pending = refl

abbrev regulation : Regulation
regulation = record {
  id = 1;
  source_id = text "32014L0035";
  title = none;
  summary = none;
  jurisdiction = some (text "EU");
  document_type = none;
  publication_date = none;
  entry_into_force_date = none;
  oj_reference = none;
  file_path = none;
  ingestion_status = IngestionStatus.ingested;
  created_by = none;
}

-- `str` of an id, for these examples.
abbrev shown : ℕ → Text
shown n = text "1"

abbrev detail : RegulationDetail ℕ
detail = record {
  reg = regulation;
  field_groups = map field_group (grouped_into [] (entries_for 1 fields));
  total_fields = length (entries_for 1 fields);
  conditions = [];
  relationships = relationships_for shown (regulation ∷ []) 1 [];
  hs = hs_for 1 [];
}
