-- ===== src/Pipeline/Persist.antt =====
-- `_identity` and `_persist` of pipeline.py: the rows that a validated record becomes.
use compliance_wizard_engine.Prelude.{
  ℕ, suc, Bool, false, ◌||◌, not, Option, none, some, List, [], ◌∷◌, ◌++◌, map, Text, text, is_nil,
  any, keep, find, opt_text_or, ◌==◌, nat_eq, text_eq, if◌then◌else◌, Floats,
}
use compliance_wizard_engine.Vocabulary.{ReviewStatus, pending, auto_approved, IngestionStatus}
use compliance_wizard_engine.Store.{
  Regulation, CanonicalValue, plain, RegulationField, Condition, HsMap, Job,
}
use compliance_wizard_engine.Schemas.{
  ApplicabilityCondition, MappedField, field, condition, ReviewFlag, ValidationOutput,
  FetchEnrichmentOutput,
}
use compliance_wizard_engine.Relations.Resolver.{Graph}

-- The tables that the pipeline writes: the regulations and their edges are in the graph.
pub record Db (F : Type 0) : Type 0 where
  pub graph : Graph F
  pub fields : List (RegulationField F)
  pub conditions : List (Condition F)
  pub hs_rows : List (HsMap F)

-- `a or b` of two values that may be None, an empty text counting as None
abbrev pub or_text : Option Text → Option Text → Option Text
or_text none b = b
or_text (some t) b = if is_nil t then b else some t

abbrev pub or_date : Option ℕ → Option ℕ → Option ℕ
or_date none b = b
or_date (some d) b = some d

-- `_identity`: the source id and the jurisdiction; `shown` is the job's id as text.
unfoldable pub identity : (ℕ → Text) → Job → Text × Text
identity shown job = (
  opt_text_or job.source_id (opt_text_or job.celex_hint (text "UPLOAD:" ++ shown job.id)),
  opt_text_or job.jurisdiction (opt_text_or job.jurisdiction_hint (text "EU")),
)

-- flagged_fields and flagged_conds
abbrev pub names_field : Text → ReviewFlag → Bool
names_field name f = elim f.target [ field n ↦ n == name | condition i ↦ false ]

abbrev pub names_condition : ℕ → ReviewFlag → Bool
names_condition i f = elim f.target [ field n ↦ false | condition j ↦ j == i ]

abbrev pub status_of : Bool → ReviewStatus
status_of is_pending = if is_pending then pending else auto_approved

abbrev pub value_text_of : CanonicalValue → Option Text
value_text_of (plain t) = some t
value_text_of _ = none

abbrev pub value_json_of : CanonicalValue → Option CanonicalValue
value_json_of (plain t) = none
value_json_of v = some v

-- A regulation that is new to the table, before its columns are set.
abbrev pub blank_regulation : ℕ → Text → Regulation
blank_regulation id source_id = record {
  id = id;
  source_id = source_id;
  title = none;
  summary = none;
  jurisdiction = none;
  document_type = none;
  publication_date = none;
  entry_into_force_date = none;
  oj_reference = none;
  file_path = none;
  ingestion_status = IngestionStatus.queued;
  created_by = some (text "pipeline");
}

-- The provenance of a stub passes to the pipeline.
abbrev pub claimed_by : Option Text → Option Text
claimed_by none = none
claimed_by (some who) = if who == text "resolution_engine" then some (text "pipeline") else some who

module _ {F : Type 0} where
  -- The columns that `_persist` sets.
  unfoldable pub filled :
      Job → ValidationOutput F → FetchEnrichmentOutput F → Regulation → Regulation
  filled job v fetch reg =
      let enriched = not fetch.skipped in
      record reg {
        title = or_text job.title_hint reg.title;
        summary = or_text v.summary reg.summary;
        jurisdiction = some v.jurisdiction;
        document_type = or_text job.document_type_hint reg.document_type;
        publication_date =
            if enriched
            then or_date fetch.publication_date reg.publication_date
            else reg.publication_date;
        entry_into_force_date =
            if enriched
            then or_date fetch.entry_into_force_date reg.entry_into_force_date
            else reg.entry_into_force_date;
        oj_reference =
            if enriched then or_text fetch.oj_reference reg.oj_reference else reg.oj_reference;
        file_path = job.file_path;
        ingestion_status = IngestionStatus.ingested;
        created_by = claimed_by reg.created_by;
      }

  -- The regulation of a source id, found or added, and then filled; its id.
  unfoldable pub put_regulation :
      Job → ValidationOutput F → FetchEnrichmentOutput F → Graph F → Graph F × ℕ
  put_regulation job v fetch g =
      elim (find (λ r. r.source_id == v.regulation_source_id) g.regulations) [
        | some reg ↦ (
          record g {
            regulations =
                map (λ r. if r.id == reg.id then filled job v fetch r else r) g.regulations;
          },
          reg.id,
        )
        | none ↦ (
          record g {
            regulations =
                g.regulations
                ++ filled job v fetch (blank_regulation g.fresh v.regulation_source_id) ∷ [];
            fresh = suc g.fresh;
          },
          g.fresh,
        )
      ]

  module _ ⦃fl : Floats F⦄ where
    unfoldable pub field_row : F → ℕ → List ReviewFlag → MappedField F → RegulationField F
    field_row threshold reg flags f = record {
      regulation_id = reg;
      field_name = f.field_name;
      value_text = value_text_of f.canonical_value;
      value_json = value_json_of f.canonical_value;
      reference = some f.reference;
      confidence = some f.confidence;
      source_segment_index = some f.source_segment_index;
      review_status =
          status_of (any (names_field f.field_name) flags || fl.flt f.confidence threshold);
      reviewer_note = none;
      reviewer_id = none;
    }

    unfoldable pub condition_row :
        F → ℕ → List ReviewFlag → ℕ → ApplicabilityCondition F → Condition F
    condition_row threshold reg flags i c = record {
      regulation_id = reg;
      parameter_name = c.parameter_name;
      operator = c.operator;
      value_min = c.value_min;
      value_max = c.value_max;
      value_enum = c.value_enum;
      value_bool = c.value_bool;
      unit = c.unit;
      condition_type = c.condition_type;
      is_structured = c.is_structured;
      raw_text = c.raw_text;
      reference = some c.reference;
      confidence = some c.confidence;
      review_status =
          status_of
            (any (names_condition i) flags || not c.is_structured || fl.flt c.confidence threshold);
    }

    unfoldable pub condition_rows :
        F → ℕ → List ReviewFlag → ℕ → List (ApplicabilityCondition F) → List (Condition F)
    unfolding condition_row
    condition_rows threshold reg flags i [] = []
    condition_rows threshold reg flags i (c ∷ conds) =
        condition_row threshold reg flags i c ∷ condition_rows threshold reg flags (suc i) conds

    abbrev pub field_of_other : ℕ → RegulationField F → Bool
    field_of_other reg f = not (f.regulation_id == reg)

    abbrev pub condition_of_other : ℕ → Condition F → Bool
    condition_of_other reg c = not (c.regulation_id == reg)

    -- `_persist`: the regulation's rows of an earlier run are deleted, the new ones added.
    unfoldable pub persist :
        F → Job → ValidationOutput F → FetchEnrichmentOutput F → Db F → Db F × ℕ
    persist threshold job v fetch db =
        let (graph, reg) = put_regulation job v fetch db.graph in
        (
          record {
            graph = graph;
            fields =
                keep (field_of_other reg) db.fields
                ++ map (field_row threshold reg v.flags) v.fields;
            conditions =
                keep (condition_of_other reg) db.conditions
                ++ condition_rows threshold reg v.flags 0 v.applicability_conditions;
            hs_rows = db.hs_rows;
          },
          reg,
        )
