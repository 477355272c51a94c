-- ===== src/Schemas.antt =====
-- schemas/: the records that the agents hand on. Building one runs pydantic's checks, so that
-- `condition_of` and `field_of` return None where the constructor raises ValidationError.
use compliance_wizard_engine.Prelude.{
  ℕ, Bool, true, ◌&&◌, ◌||◌, not, Option, none, some, List, Text, is_nil, if◌then◌else◌, Floats,
}
use compliance_wizard_engine.Vocabulary.{ConditionType, Operator, RelationType, ReviewStatus}
use compliance_wizard_engine.Store.{CanonicalValue}

-- schemas/read.py
pub record TextSegment : Type 0 where
  pub section_title : Option Text
  pub body : Text
  pub page_start : ℕ
  pub page_end : ℕ
  pub segment_index : ℕ

-- schemas/common.py
pub record ExtractedField (F : Type 0) : Type 0 where
  pub value : Text
  pub reference : Text
  pub confidence : F
  pub source_segment_index : ℕ

-- schemas/extract.py
pub record RawApplicabilityCondition (F : Type 0) : Type 0 where
  pub parameter_name : Text
  pub operator : Text
  pub value : Text
  pub unit : Option Text
  pub value_type : Option Text
  pub condition_type : Text
  pub reference : Text
  pub confidence : F
  pub raw_text : Text

pub record ConformityRoute (F : Type 0) : Type 0 where
  pub category : Text
  pub modules : List Text
  pub condition : Option Text
  pub reference : Text
  pub confidence : F
  pub source_segment_index : ℕ

pub record ExtractOutput (F : Type 0) : Type 0 where
  pub summary : Option Text
  pub scope_description : Option (ExtractedField F)
  pub scope_params : List (ExtractedField F)
  pub hs_codes : List (ExtractedField F)
  pub conformity_path_testing : Option (ExtractedField F)
  pub conformity_path_inspection : Option (ExtractedField F)
  pub conformity_assessment_type : Option (ExtractedField F)
  pub conformity_body_type : Option (ExtractedField F)
  pub conformity_routes : List (ConformityRoute F)
  pub conformity_docs : List (ExtractedField F)
  pub technical_documentation : Option (ExtractedField F)
  pub production_type : Option (ExtractedField F)
  pub legal_entities : List (ExtractedField F)
  pub standards_references : List (ExtractedField F)
  pub standards_harmonized : List (ExtractedField F)
  pub markings : List (ExtractedField F)
  pub certification_bodies : List (ExtractedField F)
  pub exclusions : List (ExtractedField F)
  pub regulation_mentions : List Text
  pub applicability_conditions : List (RawApplicabilityCondition F)

-- schemas/mapping.py
pub record ApplicabilityCondition (F : Type 0) : Type 0 where
  pub parameter_name : Option Text
  pub operator : Option Operator
  pub value_min : Option F
  pub value_max : Option F
  pub value_enum : Option (List Text)
  pub value_bool : Option Bool
  pub unit : Option Text
  pub condition_type : ConditionType
  pub is_structured : Bool
  pub raw_text : Option Text
  pub reference : Text
  pub confidence : F

pub record MappedField (F : Type 0) : Type 0 where
  pub field_name : Text
  pub raw_value : Text
  pub canonical_value : CanonicalValue
  pub reference : Text
  pub confidence : F
  pub source_segment_index : ℕ

pub record MappingOutput (F : Type 0) : Type 0 where
  pub regulation_source_id : Text
  pub jurisdiction : Text
  pub summary : Option Text
  pub fields : List (MappedField F)
  pub applicability_conditions : List (ApplicabilityCondition F)

-- `not text`, for a text that may be None
abbrev pub is_blank : Option Text → Bool
is_blank none = true
is_blank (some t) = is_nil t

module _ {F : Type 0} ⦃fl : Floats F⦄ where
  abbrev pub in_unit : F → Bool
  in_unit x = fl.fle (fl.milli 0) x && fl.fle x (fl.milli 1000)

  -- The range of `confidence` and the validator `_unstructured_needs_raw_text`.
  unfoldable pub condition_of : ApplicabilityCondition F → Option (ApplicabilityCondition F)
  condition_of c =
      if not (in_unit c.confidence) || not c.is_structured && is_blank c.raw_text
      then none
      else some c

-- schemas/validation.py
pub data Reason : Type 0 where
  low_confidence consistency_fail unstructured_condition unresolved_alias invalid_hs : Reason
  missing_required_field unknown_parameter : Reason

-- A flag names a field, or the condition at an index: the text "applicability_condition[i]".
pub data FlagTarget : Type 0 where
  field : Text → FlagTarget
  condition : ℕ → FlagTarget

pub record ReviewFlag : Type 0 where
  pub target : FlagTarget
  pub reason : Reason

pub record ValidationOutput (F : Type 0) : Type 0 where
  pub regulation_source_id : Text
  pub jurisdiction : Text
  pub summary : Option Text
  pub fields : List (MappedField F)
  pub applicability_conditions : List (ApplicabilityCondition F)
  pub flags : List ReviewFlag
  pub review_status : ReviewStatus

-- schemas/fetch.py
pub record ApiSourcedRelationship (F : Type 0) : Type 0 where
  pub target_source_id : Text
  pub relation_type : RelationType
  pub confidence : F

pub record FetchEnrichmentOutput (F : Type 0) : Type 0 where
  pub publication_date : Option ℕ
  pub entry_into_force_date : Option ℕ
  pub oj_reference : Option Text
  pub api_sourced_relationships : List (ApiSourcedRelationship F)
  pub skipped : Bool
