-- ===== src/Mapping/Fields.antt =====
-- agents/mapping_agent.py: the normalization of a field by its name, the conformity routes, and `run`.
use compliance_wizard_engine.Prelude.{
  joined, ℕ, Bool, true, false, ◌&&◌, ◌||◌, not, Option, none, some, List, [], ◌∷◌, ◌++◌, map, Text,
  text, is_nil, is_alnum, lower, upper, strip, text_or, has_part, starts_with, digits, drop, any,
  keep, ◌==◌, nat_eq, text_eq, if◌then◌else◌, Floats,
}
use compliance_wizard_engine.Vocabulary.{AttributeValueType}
use compliance_wizard_engine.Store.{CanonicalValue, plain, body, route}
use compliance_wizard_engine.Schemas.{
  ExtractedField, ConformityRoute, ExtractOutput, RawApplicabilityCondition, ApplicabilityCondition,
  MappedField, MappingOutput,
}
use compliance_wizard_engine.Mapping.Normalize.{not_blank}
use compliance_wizard_engine.Mapping.Structure.{structure}

abbrev is_word_char : ℕ → Bool
is_word_char c = is_alnum c || c == b'_'

abbrev starts_word : Text → Bool
starts_word [] = false
starts_word (c ∷ s) = is_word_char c

-- `re.search(r"\bEX\b", s)`; the flag says that a word character stands in front.
unfoldable pub has_ex_word : Bool → Text → Bool
has_ex_word after [] = false
has_ex_word after (c ∷ s) =
    not after && starts_with (c ∷ s) (text "EX") && not (starts_word (drop 2 (c ∷ s)))
    || has_ex_word (is_word_char c) s

-- `_marking`, empty for None
unfoldable pub marking_of : Text → Text
unfolding has_ex_word
marking_of value =
    let s = upper value in
    if has_part (text "UKCA") s
    then text "UKCA"
    else if has_part (text "EAC") s
    then text "EAC"
    else if has_part (text "ATEX") s || has_ex_word false s
    then text "Ex"
    else if has_part (text "CE") s
    then text "CE"
    else []

-- `_enum_contains`, empty for None
unfoldable pub enum_contains : Text → List (Text × List Text) → Text
enum_contains value [] = []
enum_contains value ((canonical, needles) ∷ mapping) =
    if any (λ n. has_part n (lower value)) needles then canonical else enum_contains value mapping

abbrev pub production_needles : List (Text × List Text)
production_needles =
    (text "serial", text "serial" ∷ [])
    ∷ (text "batch", text "batch" ∷ [])
    ∷ (text "single", text "single" ∷ text "one-off" ∷ text "unit" ∷ text "individual" ∷ [])
    ∷ []

abbrev pub assessment_needles : List (Text × List Text)
assessment_needles =
    (text "3rd-party", text "third" ∷ text "3rd" ∷ text "notified body" ∷ [])
    ∷ (text "1st-party", text "first" ∷ text "1st" ∷ text "self" ∷ [])
    ∷ []

abbrev pub body_needles : List (Text × List Text)
body_needles =
    (text "notified", text "notified" ∷ [])
    ∷ (text "accredited", text "accredit" ∷ [])
    ∷ (text "certified", text "certif" ∷ [])
    ∷ []

-- A row of the aliases joined with its body.
pub record Alias : Type 0 where
  pub alias : Text
  pub body_id : ℕ
  pub canonical_name : Text

-- The dict keyed by the lower-case alias: the last row of a key counts.
unfoldable pub find_alias : Text → List Alias → Option Alias
find_alias key [] = none
find_alias key (a ∷ aliases) = elim (find_alias key aliases) [
  | some b ↦ some b
  | none ↦ if lower a.alias == key then some a else none
]

-- `_resolve_body`
unfoldable pub resolve_body : Text → List Alias → CanonicalValue
unfolding find_alias
resolve_body value aliases = elim (find_alias (lower (strip value)) aliases) [
  | some a ↦ body a.canonical_name (some a.body_id) true
  | none ↦ body (strip value) none false
]

-- The branches of `_map_field` on the field's name.
unfoldable pub canonical_value_of : List Alias → Text → Text → CanonicalValue
unfolding marking_of enum_contains resolve_body
canonical_value_of aliases name value =
    if name == text "marking"
    then plain (text_or (marking_of value) (strip value))
    else if name == text "production_type"
    then plain (text_or (enum_contains value production_needles) (strip value))
    else if name == text "conformity_assessment_type"
    then plain (text_or (enum_contains value assessment_needles) (strip value))
    else if name == text "conformity_body_type"
    then plain (text_or (enum_contains value body_needles) (strip value))
    else if name == text "hs_code"
    then plain (digits value)
    else if name == text "certification_body"
    then resolve_body value aliases
    else plain (strip value)

-- The condition of a route, unless it is empty.
abbrev pub route_condition : Option Text → Option Text
route_condition none = none
route_condition (some t) = if is_nil t then none else some (strip t)

module _ {F : Type 0} where
  unfoldable pub map_field : List Alias → Text → ExtractedField F → MappedField F
  unfolding canonical_value_of
  map_field aliases name ef = record {
    field_name = name;
    raw_value = ef.value;
    canonical_value = canonical_value_of aliases name ef.value;
    reference = ef.reference;
    confidence = ef.confidence;
    source_segment_index = ef.source_segment_index;
  }

  unfoldable pub map_conformity_route : ConformityRoute F → MappedField F
  unfolding joined
  map_conformity_route r =
      let modules = map (λ m. upper (strip m)) (keep not_blank r.modules) in
      let category = strip r.category in
      record {
        field_name = text "conformity_route";
        raw_value =
            (if is_nil category then [] else text "Category " ++ (category ++ text ": "))
            ++ text_or (joined (text ", ") modules) (text "(unspecified)");
        canonical_value = route category modules (route_condition r.condition);
        reference = r.reference;
        confidence = r.confidence;
        source_segment_index = r.source_segment_index;
      }

  abbrev pub optional : Text → Option (ExtractedField F) → List (Text × ExtractedField F)
  optional name none = []
  optional name (some ef) = (name, ef) ∷ []

  abbrev pub named : Text → List (ExtractedField F) → List (Text × ExtractedField F)
  named name efs = map (λ ef. (name, ef)) efs

  -- _SCALARS and _ARRAYS: the extracted fields with their names, in the order of `run`.
  unfoldable pub named_fields : ExtractOutput F → List (Text × ExtractedField F)
  named_fields e =
      optional (text "scope_description") e.scope_description
      ++ optional (text "conformity_path_testing") e.conformity_path_testing
      ++ optional (text "conformity_path_inspection") e.conformity_path_inspection
      ++ optional (text "conformity_assessment_type") e.conformity_assessment_type
      ++ optional (text "conformity_body_type") e.conformity_body_type
      ++ optional (text "technical_documentation") e.technical_documentation
      ++ optional (text "production_type") e.production_type
      ++ named (text "scope_param") e.scope_params
      ++ named (text "hs_code") e.hs_codes
      ++ named (text "conformity_doc") e.conformity_docs
      ++ named (text "legal_entity") e.legal_entities
      ++ named (text "standard_reference") e.standards_references
      ++ named (text "standard_harmonized") e.standards_harmonized
      ++ named (text "marking") e.markings
      ++ named (text "certification_body") e.certification_bodies
      ++ named (text "exclusion") e.exclusions

  module _ ⦃fl : Floats F⦄ where
    unfoldable pub structure_all :
        List (Text × AttributeValueType)
        → List (RawApplicabilityCondition F)
        → Option (List (ApplicabilityCondition F))
    unfolding structure
    structure_all types [] = some []
    structure_all types (raw ∷ raws) =
        let rest = structure_all types raws in
        elim (structure types raw) [
          | none ↦ none
          | some c ↦ elim rest [ none ↦ none | some cs ↦ some (c ∷ cs) ]
        ]

    -- `run`, given the rows of `_load_lookups`; None where a condition is no valid schema.
    unfoldable pub run :
        List Alias
        → List (Text × AttributeValueType)
        → ExtractOutput F
        → Text
        → Text
        → Option (MappingOutput F)
    unfolding map_field map_conformity_route named_fields structure_all
    run aliases types e source_id jurisdiction =
        elim (structure_all types e.applicability_conditions) [
          | none ↦ none
          | some conditions ↦ some (record {
            regulation_source_id = source_id;
            jurisdiction = jurisdiction;
            summary = e.summary;
            fields =
                map (λ nf. map_field aliases nf.0 nf.1) (named_fields e)
                ++ map map_conformity_route e.conformity_routes;
            applicability_conditions = conditions;
          })
        ]
