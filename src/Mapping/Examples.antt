-- ===== src/Mapping/Examples.antt =====
-- A clause of the Low Voltage Directive, and the theorems of Mapping at work on it.
use compliance_wizard_engine.Prelude.{
  ℕ, ◌≡◌, ◌≢◌, ◌↔◌, ◌⊎◌, refl, true, false, Option, none, some, List, [], ◌∷◌, Text, text, is_nil,
  text_beq, lower, strip, is_digit, is_space, take_while, drop_while, thousandths,
  thousandths-IsOrdered,
}
use compliance_wizard_engine.Vocabulary.{AttributeValueType, range}
use compliance_wizard_engine.Schemas.{
  RawApplicabilityCondition, ExtractOutput, MappingOutput, condition_of, in_unit,
}
use compliance_wizard_engine.Mapping.Normalize.{norm_param, norm_operator, numerals, lookup}
use compliance_wizard_engine.Mapping.Structure.{
  resolved_type, typed_condition, unstructured_of, bounds_of, numbers_of, structure,
}
use compliance_wizard_engine.Mapping.Structuring.{structure_fails_iff}
use compliance_wizard_engine.Mapping.Evaluated.{Says, range_evaluates_iff}
use compliance_wizard_engine.Mapping.Fields.{run, structure_all}
use compliance_wizard_engine.Mapping.Provenance.{run_total}
use compliance_wizard_engine.Pipeline.Persist.{condition_row}
use compliance_wizard_engine.Wizard.Evaluation.{
  Attributes, number, met, attribute, to_float, evaluate,
}

abbrev pub voltage_clause : RawApplicabilityCondition ℕ
voltage_clause = record {
  parameter_name = text "Rated Voltage";
  operator = text "in";
  value = text "50, 1000 V";
  unit = some (text "V");
  value_type = some (text "string");
  condition_type = text "inclusion";
  reference = text "Article 1";
  confidence = 900;
  raw_text = text "designed for use with a voltage rating of between 50 and 1000 V";
}

abbrev pub types : List (Text × AttributeValueType)
types = (text "rated_voltage", range) ∷ []

abbrev pub attrs : Attributes ℕ
attrs = (text "rated_voltage", number (some 230000) (text "230")) ∷ []

-- A hyphen between two numbers is read as the sign of the second.
hyphen_is_sign : numerals 0 (text "50-1000 V") ≡ text "50" ∷ text "-1000" ∷ []
unfolding numerals drop_while is_digit take_while
hyphen_is_sign = refl

voltage_type : resolved_type types voltage_clause ≡ range
unfolding resolved_type lookup text_beq norm_param lower strip is_space
voltage_type = refl

voltage_structured : structure types voltage_clause ≡ some (typed_condition range voltage_clause)
unfolding structure condition_of lookup text_beq norm_param lower strip is_space bounds_of
    numbers_of numerals is_digit take_while drop_while
voltage_structured = refl

structure_fails_iff_example :
    (structure types voltage_clause ≡ none)
    ↔ ((in_unit voltage_clause.confidence ≡ false) ⊎ (is_nil voltage_clause.raw_text ≡ true))
structure_fails_iff_example = structure_fails_iff types voltage_clause

range_evaluates_iff_example :
    (evaluate attrs (condition_row 750 1 [] 0 (typed_condition range voltage_clause)) ≡ met)
    ↔ Says {F = ℕ} (norm_operator voltage_clause.operator) (numbers_of voltage_clause.value) 230000
unfolding typed_condition attribute to_float unstructured_of lookup text_beq norm_param lower strip
    is_space bounds_of numbers_of numerals is_digit take_while drop_while
range_evaluates_iff_example =
    range_evaluates_iff thousandths-IsOrdered types voltage_clause
      (typed_condition range voltage_clause) 750 1 0 [] attrs (number (some 230000) (text "230"))
      230000 voltage_structured voltage_type refl refl refl refl

abbrev pub extracted : ExtractOutput ℕ
extracted = record {
  summary = none;
  scope_description = none;
  scope_params = [];
  hs_codes =
      record {
        value = text "8504.40";
        reference = text "Annex I";
        confidence = 800;
        source_segment_index = 2;
      }
      ∷ [];
  conformity_path_testing = none;
  conformity_path_inspection = none;
  conformity_assessment_type = none;
  conformity_body_type = none;
  conformity_routes = [];
  conformity_docs = [];
  technical_documentation = none;
  production_type = none;
  legal_entities = [];
  standards_references = [];
  standards_harmonized = [];
  markings = [];
  certification_bodies = [];
  exclusions = [];
  regulation_mentions = text "Directive 2006/95/EC" ∷ [];
  applicability_conditions = voltage_clause ∷ [];
}

abbrev pub mapped : Option (MappingOutput ℕ)
mapped = run [] types extracted (text "32014L0035") (text "EU")

run_total_example : run [] types extracted (text "32014L0035") (text "EU") ≢ none
run_total_example = run_total [] types extracted (text "32014L0035") (text "EU") ((refl, refl), tt)

abbrev no_record : MappingOutput ℕ
no_record = record {
  regulation_source_id = [];
  jurisdiction = [];
  summary = none;
  fields = [];
  applicability_conditions = [];
}

abbrev pub mapped_record : MappingOutput ℕ
mapped_record = elim mapped [ none ↦ no_record | some m ↦ m ]

mapped_some : run [] types extracted (text "32014L0035") (text "EU") ≡ some mapped_record
unfolding run structure_all structure condition_of lookup text_beq norm_param lower strip is_space
    bounds_of numbers_of numerals is_digit take_while drop_while
mapped_some = refl
