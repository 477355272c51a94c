-- ===== src/Pipeline/Examples.antt =====
-- A document on its way into empty tables, and the theorems of Validation and Pipeline at work on it.
use compliance_wizard_engine.Prelude.{
  ℕ, ◌≡◌, ◌≢◌, ◌↔◌, refl, true, Option, none, some, [], ◌∷◌, map, Text, text, All, thousandths,
}
use compliance_wizard_engine.Vocabulary.{auto_approved, JobStatus}
use compliance_wizard_engine.Store.{Job}
use compliance_wizard_engine.Schemas.{ValidationOutput, FetchEnrichmentOutput}
use compliance_wizard_engine.Mapping.Examples.{types, extracted, mapped_record}
use compliance_wizard_engine.Validation.{validate, all_flags}
use compliance_wizard_engine.Validation.Clean.{IsClean, validate-auto_approved_iff}
use compliance_wizard_engine.Relations.Mirrors.{IsConsistent}
use compliance_wizard_engine.Pipeline.Persist.{Db, condition_rows, persist}
use compliance_wizard_engine.Pipeline.Document.{Agents, Reference, ingest}
use compliance_wizard_engine.Pipeline.Review.{review_of, condition_rows-review}
use compliance_wizard_engine.Pipeline.Storage.{persist_idempotent}
use compliance_wizard_engine.Pipeline.Ingest.{ingest_total}
use compliance_wizard_engine.Pipeline.Reached.{start, next, Reached-answers}
use compliance_wizard_engine.Wizard.Evaluation.{Attributes}
use compliance_wizard_engine.Wizard.Results.{query}
use compliance_wizard_engine.Wizard.Totality.{Fits}

abbrev no_enrichment : FetchEnrichmentOutput ℕ
no_enrichment = record {
  publication_date = none;
  entry_into_force_date = none;
  oj_reference = none;
  api_sourced_relationships = [];
  skipped = true;
}

abbrev pub agents : Agents ℕ
agents = record {
  read = λ job. some [];
  extract = λ segments. some extracted;
  enrich = λ v. some no_enrichment;
  infer_hs_codes = λ scope summary. none;
}

abbrev pub ref : Reference ℕ
ref = record {
  aliases = [];
  attribute_types = types;
  nomenclature = text "850440" ∷ [];
  threshold = 750;
  hs_inference_enabled = true;
  shown = λ id. text "j";
}

abbrev pub job : Job
job = record {
  id = 1;
  file_path = some (text "lvd.pdf");
  source_url = none;
  source_id = some (text "32014L0035");
  jurisdiction = none;
  title_hint = none;
  document_type_hint = none;
  celex_hint = none;
  jurisdiction_hint = none;
  status = JobStatus.processing;
  attempts = 1;
  created_at = 0;
}

abbrev pub empty : Db ℕ
empty = record {
  graph = record { regulations = []; edges = []; fresh = 1 };
  fields = [];
  conditions = [];
  hs_rows = [];
}

abbrev validated : ValidationOutput ℕ
validated = validate (text "rated_voltage" ∷ []) 750 mapped_record

validate_example :
    ((validate (text "rated_voltage" ∷ []) 750 mapped_record).review_status ≡ auto_approved)
    ↔ IsClean (text "rated_voltage" ∷ []) 750 mapped_record
validate_example = validate-auto_approved_iff (text "rated_voltage" ∷ []) 750 mapped_record

review_example :
    map
      (λ row. row.review_status)
      (condition_rows 750 1
        (all_flags (text "rated_voltage" ∷ []) 750 mapped_record)
        0
        mapped_record.applicability_conditions)
    ≡ map (review_of (text "rated_voltage" ∷ []) 750) mapped_record.applicability_conditions
review_example = condition_rows-review (text "rated_voltage" ∷ []) 750 1 mapped_record

persist_idempotent_example :
    let (db', reg) = persist 750 job validated no_enrichment empty in
    persist 750 job validated no_enrichment db' ≡ (db', reg)
persist_idempotent_example = persist_idempotent 750 job validated no_enrichment empty tt

first_ingest : ingest ref agents job extracted empty ≢ none
first_ingest = ingest_total ref agents job extracted empty ((refl, refl), tt) (λ v e. cc)

-- The tables after the document.
abbrev or_empty : Option (Db ℕ) → Db ℕ
or_empty none = empty
or_empty (some db) = db

some_of : (o : Option (Db ℕ)) → o ≢ none → o ≡ some (or_empty o)
some_of none h = absurd (h refl)
some_of (some db) h = refl

abbrev after : Db ℕ
after = or_empty (ingest ref agents job extracted empty)

ingested_once : ingest ref agents job extracted empty ≡ some after
ingested_once = some_of (ingest ref agents job extracted empty) first_ingest

Reached-answers_example :
    IsConsistent after.graph
    × ((hs_code : Text) (attrs : Attributes ℕ)
        → All Fits attrs
        → query after.graph.regulations after.graph.edges after.conditions after.hs_rows hs_code
            attrs
          ≢ none)
Reached-answers_example =
    Reached-answers ref agents after (next job extracted (start 1) ingested_once)
