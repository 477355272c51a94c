-- ===== src/Validation.antt =====
-- agents/validation_agent.py: the checks of a mapped record and the flags that route it to review.
-- `known_params` are the names of the product attributes, `threshold` is CONFIDENCE_THRESHOLD.
pub mod Demands
pub mod Presence
pub mod Clean
use compliance_wizard_engine.Prelude.{
  ℕ, suc, ◌+◌, Bool, true, false, ◌&&◌, ◌||◌, not, Option, none, some, List, [], ◌∷◌, ◌++◌, Text,
  text, is_nil, is_digit, is_empty, any, keep, length, contains, ◌==◌, nat_eq, text_eq,
  if◌then◌else◌, Floats,
}
use compliance_wizard_engine.Vocabulary.{ReviewStatus, pending, auto_approved}
use compliance_wizard_engine.Store.{CanonicalValue, plain, body, route}
use compliance_wizard_engine.Schemas.{
  ApplicabilityCondition, MappedField, MappingOutput, Reason, low_confidence, consistency_fail,
  unstructured_condition, unresolved_alias, invalid_hs, missing_required_field, unknown_parameter,
  FlagTarget, field, condition, ReviewFlag, ValidationOutput,
}

abbrev pub flag : FlagTarget → Reason → ReviewFlag
flag target reason = record { target = target; reason = reason }

abbrev pub flag_if : Bool → FlagTarget → Reason → List ReviewFlag
flag_if b target reason = if b then flag target reason ∷ [] else []

-- `$` of a pattern also matches in front of a newline at the end.
unfoldable pub without_newline : Text → Text
without_newline [] = []
without_newline (c ∷ []) = if c == 10 then [] else c ∷ []
without_newline (c ∷ d ∷ s) = c ∷ without_newline (d ∷ s)

-- _HS_RE
unfoldable pub is_hs_code : Text → Bool
unfolding without_newline
is_hs_code s =
    let t = without_newline s in
    let n = length t in not (any (λ c. not (is_digit c)) t) && (n == 6 || n == 8 || n == 10)

-- `f.canonical_value if isinstance(f.canonical_value, str) else ""`
abbrev pub text_value : CanonicalValue → Text
text_value (plain t) = t
text_value _ = []

abbrev pub is_unresolved : CanonicalValue → Bool
is_unresolved (plain t) = false
is_unresolved (body name id resolved) = not resolved
is_unresolved (route category modules cond) = true

-- `_val`
abbrev pub named_value : CanonicalValue → Text
named_value (plain t) = t
named_value (body name id resolved) = name
named_value (route category modules cond) = []

-- _MARKING_JURISDICTION
unfoldable pub marking_jurisdiction : Text → Option Text
marking_jurisdiction mark =
    if mark == text "CE"
    then some (text "EU")
    else if mark == text "UKCA"
    then some (text "UK")
    else if mark == text "EAC"
    then some (text "EAEU")
    else none

unfoldable pub is_foreign : Text → Text → Bool
unfolding marking_jurisdiction
is_foreign jurisdiction mark = elim (marking_jurisdiction mark) [
  | none ↦ false
  | some expected ↦ not (is_nil jurisdiction) && not (expected == jurisdiction)
]

abbrev pub is_unknown : List Text → Option Text → Bool
is_unknown known_params none = false
is_unknown known_params (some p) = not (is_nil p) && not (contains p known_params)

module _ {F : Type 0} where
  -- `by_name.get(name, [])`
  abbrev pub fields_named : Text → List (MappedField F) → List (MappedField F)
  fields_named name fields = keep (λ f. f.field_name == name) fields

  abbrev pub bad_hs : MappedField F → Bool
  bad_hs f = f.field_name == text "hs_code" && not (is_hs_code (text_value f.canonical_value))

  abbrev pub bad_body : MappedField F → Bool
  bad_body f = f.field_name == text "certification_body" && is_unresolved f.canonical_value

  -- `_format_checks`
  unfoldable pub format_checks : List (MappedField F) → List ReviewFlag
  unfolding is_hs_code
  format_checks [] = []
  format_checks (f ∷ fields) =
      flag_if (bad_hs f) (field (text "hs_code")) invalid_hs
      ++ (flag_if (bad_body f) (field (text "certification_body")) unresolved_alias
          ++ format_checks fields)

  unfoldable pub marking_checks : Text → List (MappedField F) → List ReviewFlag
  unfolding is_foreign
  marking_checks jurisdiction [] = []
  marking_checks jurisdiction (f ∷ fields) =
      flag_if (is_foreign jurisdiction (named_value f.canonical_value)) (field (text "marking"))
        consistency_fail
      ++ marking_checks jurisdiction fields

  abbrev pub has_value : Text → MappedField F → Bool
  has_value t f = named_value f.canonical_value == t

  abbrev pub lacks_body : List (MappedField F) → Bool
  lacks_body fields =
      any (has_value (text "3rd-party")) (fields_named (text "conformity_assessment_type") fields)
      && is_empty (fields_named (text "certification_body") fields)

  abbrev pub lacks_standard : List (MappedField F) → Bool
  lacks_standard fields =
      any (has_value (text "CE")) (fields_named (text "marking") fields)
      && is_empty (fields_named (text "standard_harmonized") fields)

  abbrev pub lacks_production_type : List (MappedField F) → Bool
  lacks_production_type fields =
      (not (is_empty (fields_named (text "conformity_path_testing") fields))
        || not (is_empty (fields_named (text "conformity_path_inspection") fields)))
      && is_empty (fields_named (text "production_type") fields)

  -- `_consistency_checks`
  unfoldable pub consistency_checks : List (MappedField F) → Text → List ReviewFlag
  unfolding marking_checks
  consistency_checks fields jurisdiction =
      flag_if (lacks_body fields) (field (text "certification_body")) consistency_fail
      ++ (flag_if (lacks_standard fields) (field (text "standard_harmonized")) consistency_fail
          ++ (marking_checks jurisdiction (fields_named (text "marking") fields)
              ++ flag_if (lacks_production_type fields) (field (text "production_type"))
                  missing_required_field))

  abbrev pub condition_flags : List Text → ℕ → ApplicabilityCondition F → List ReviewFlag
  condition_flags known_params i c =
      if not c.is_structured
      then flag (condition i) unstructured_condition ∷ []
      else flag_if (is_unknown known_params c.parameter_name) (condition i) unknown_parameter

  -- `_condition_checks`, the conditions counted from i
  unfoldable pub condition_checks :
      List Text → ℕ → List (ApplicabilityCondition F) → List ReviewFlag
  condition_checks known_params i [] = []
  condition_checks known_params i (c ∷ conds) =
      condition_flags known_params i c ++ condition_checks known_params (suc i) conds

  module _ ⦃fl : Floats F⦄ where
    unfoldable pub field_confidence_checks : F → List (MappedField F) → List ReviewFlag
    field_confidence_checks threshold [] = []
    field_confidence_checks threshold (f ∷ fields) =
        flag_if (fl.flt f.confidence threshold) (field f.field_name) low_confidence
        ++ field_confidence_checks threshold fields

    unfoldable pub condition_confidence_checks :
        F → ℕ → List (ApplicabilityCondition F) → List ReviewFlag
    condition_confidence_checks threshold i [] = []
    condition_confidence_checks threshold i (c ∷ conds) =
        flag_if (fl.flt c.confidence threshold) (condition i) low_confidence
        ++ condition_confidence_checks threshold (suc i) conds

    -- The flags of `run`, in the order of the four checks.
    unfoldable pub all_flags : List Text → F → MappingOutput F → List ReviewFlag
    all_flags known_params threshold m =
        format_checks m.fields
        ++ (consistency_checks m.fields m.jurisdiction
            ++ (condition_checks known_params 0 m.applicability_conditions
                ++ (field_confidence_checks threshold m.fields
                    ++ condition_confidence_checks threshold 0 m.applicability_conditions)))

    unfoldable pub validate : List Text → F → MappingOutput F → ValidationOutput F
    unfolding all_flags
    validate known_params threshold m =
        let flags = all_flags known_params threshold m in
        record {
          regulation_source_id = m.regulation_source_id;
          jurisdiction = m.jurisdiction;
          summary = m.summary;
          fields = m.fields;
          applicability_conditions = m.applicability_conditions;
          flags = flags;
          review_status = if is_empty flags then auto_approved else pending;
        }
