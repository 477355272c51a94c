-- ===== src/Store.antt =====
-- db/models.py: the rows of the tables, with `id` a number in place of a UUID. A nullable column is
-- an Option; `created_at`, `updated_at` and the like, which no decision reads, are left out except
-- where a query orders by them. A table is the list of its rows in the order of insertion.
use compliance_wizard_engine.Prelude.{ℕ, Bool, Option, List, Text}
use compliance_wizard_engine.Vocabulary.{
  ConditionType, Operator, RelationType, RelationSource, ReviewStatus, JobStatus, IngestionStatus,
  MatchType,
}

pub record Regulation : Type 0 where
  pub id : ℕ
  pub source_id : Text
  pub title : Option Text
  pub summary : Option Text
  pub jurisdiction : Option Text
  pub document_type : Option Text
  pub publication_date : Option ℕ
  pub entry_into_force_date : Option ℕ
  pub oj_reference : Option Text
  pub file_path : Option Text
  pub ingestion_status : IngestionStatus
  pub created_by : Option Text

-- A JSON value as the program stores it in `value_json`.
pub data CanonicalValue : Type 0 where
  plain : Text → CanonicalValue
  body : (canonical_name : Text) → (body_id : Option ℕ) → (resolved : Bool) → CanonicalValue
  route : (category : Text) → (modules : List Text) → (condition : Option Text) → CanonicalValue

pub record RegulationField (F : Type 0) : Type 0 where
  pub regulation_id : ℕ
  pub field_name : Text
  pub value_text : Option Text
  pub value_json : Option CanonicalValue
  pub reference : Option Text
  pub confidence : Option F
  pub source_segment_index : Option ℕ
  pub review_status : ReviewStatus
  pub reviewer_note : Option Text
  pub reviewer_id : Option Text

pub record Condition (F : Type 0) : Type 0 where
  pub regulation_id : ℕ
  pub parameter_name : Option Text
  pub operator : Option Operator
  pub value_min : Option F
  pub value_max : Option F
  pub value_enum : Option (List Text)
  pub value_bool : Option Bool
  pub unit : Option Text
  pub condition_type : ConditionType
  pub is_structured : Bool
  pub raw_text : Option Text
  pub reference : Option Text
  pub confidence : Option F
  pub review_status : ReviewStatus

pub record HsMap (F : Type 0) : Type 0 where
  pub hs_code : Text
  pub regulation_id : ℕ
  pub confidence : Option F
  pub match_type : MatchType
  pub review_status : ReviewStatus
  pub reviewer_id : Option Text

pub record Edge (F : Type 0) : Type 0 where
  pub source_reg_id : ℕ
  pub target_reg_id : ℕ
  pub relation_type : RelationType
  pub reference : Option Text
  pub confidence : Option F
  pub source : RelationSource

pub record Job : Type 0 where
  pub id : ℕ
  pub file_path : Option Text
  pub source_url : Option Text
  pub source_id : Option Text
  pub jurisdiction : Option Text
  pub title_hint : Option Text
  pub document_type_hint : Option Text
  pub celex_hint : Option Text
  pub jurisdiction_hint : Option Text
  pub status : JobStatus
  pub attempts : ℕ
  pub created_at : ℕ

pub record JobError : Type 0 where
  pub job_id : ℕ
  pub stage : Text
  pub error_message : Text
