-- ===== src/Extracting/Parse.antt =====
-- `_field`, `_fields` and `_parse` of agents/extract_agent.py. None is an exception that the method
-- does not catch; within a result, None is a value that it drops. The audit of unknown keys, which
-- never raises, is left out.
use compliance_wizard_engine.Prelude.{
  ℕ, Bool, true, false, Option, none, some, List, [], ◌∷◌, map, keep, Text, text, is_nil, strip,
  text_eq, if◌then◌else◌, Floats, ◌>>=◌,
}
use compliance_wizard_engine.Schemas.{
  in_unit, ExtractedField, RawApplicabilityCondition, ConformityRoute, ExtractOutput,
}
use compliance_wizard_engine.Extracting.Json.{
  Cast, value, refused, overflowed, Json, null, bool, number, string, array, object, Members,
  list_of, member_of, is_true, shown_json, text_at, true_text_at, int_at, float_at,
}

abbrev pub opt_cons : {A : Type 0} → Option A → List A → List A
opt_cons none xs = xs
opt_cons (some x) xs = x ∷ xs

-- `except (ValueError, TypeError)`: a refused conversion drops the value.
unfoldable pub caught : {A B : Type 0} → Cast A → (A → Option (Option B)) → Option (Option B)
caught (value a) f = f a
caught refused f = some none
caught overflowed f = none

-- The values of the two kinds of key, by their names.
pub record Scalars (F : Type 0) : Type 0 where
  pub scope_description : Option (ExtractedField F)
  pub conformity_path_testing : Option (ExtractedField F)
  pub conformity_path_inspection : Option (ExtractedField F)
  pub conformity_assessment_type : Option (ExtractedField F)
  pub conformity_body_type : Option (ExtractedField F)
  pub technical_documentation : Option (ExtractedField F)
  pub production_type : Option (ExtractedField F)

pub record Arrays (F : Type 0) : Type 0 where
  pub scope_params : List (ExtractedField F)
  pub hs_codes : List (ExtractedField F)
  pub conformity_docs : List (ExtractedField F)
  pub legal_entities : List (ExtractedField F)
  pub standards_references : List (ExtractedField F)
  pub standards_harmonized : List (ExtractedField F)
  pub markings : List (ExtractedField F)
  pub certification_bodies : List (ExtractedField F)
  pub exclusions : List (ExtractedField F)

module _ {F A : Type 0} where
  -- A list without the values that a step drops.
  unfoldable pub collect : (Json F → Option (Option A)) → List (Json F) → Option (List A)
  collect step [] = some []
  collect step (x ∷ xs) = do r ← step x; rs ← collect step xs; some (opt_cons r rs)

-- `obj.get("value") in (None, "")`
abbrev pub has_no_value : {F : Type 0} → Option (Json F) → Bool
has_no_value none = true
has_no_value (some null) = true
has_no_value (some (string s)) = is_nil s
has_no_value (some x) = false

module _ {F : Type 0} where
  -- What a loop over a value goes through; it raises TypeError on a number or a Boolean. A text gives
  -- its characters and an object its keys, none of which is an object.
  unfoldable pub iterated : Json F → Option (List (Json F))
  unfolding list_of
  iterated null = none
  iterated (bool b) = none
  iterated (number as_float as_int shown truth) = none
  iterated (string s) = some []
  iterated (array shown items) = some (list_of items)
  iterated (object shown members) = some []

  -- `data.get(key, []) or []`, and the loop over it
  unfoldable pub iterated_or_none : Option (Json F) → Option (List (Json F))
  unfolding iterated is_true
  iterated_or_none none = some []
  iterated_or_none (some x) = if is_true x then iterated x else some []

  -- `[str(m) for m in mentions if isinstance(mentions, list) and m]`
  unfoldable pub mentions_of : Option (Json F) → Option (List Text)
  unfolding iterated is_true shown_json
  mentions_of none = some []
  mentions_of (some x) = do ms ← iterated x; some (map shown_json (keep is_true ms))

  -- `[str(m) for m in mods if m] if isinstance(mods, list) else []`
  unfoldable pub modules_of : Option (Json F) → List Text
  unfolding list_of is_true shown_json
  modules_of (some (array shown items)) = map shown_json (keep is_true (list_of items))
  modules_of _ = []

  unfoldable pub summary_of : Option (Json F) → Option Text
  summary_of (some (string s)) = if is_nil (strip s) then none else some (strip s)
  summary_of _ = none

module _ {F : Type 0} ⦃fl : Floats F⦄ (parse_int : Text → Option ℕ) where
  -- `_field` on an object: pydantic refuses a confidence outside [0, 1].
  unfoldable pub field_of_members : Members F → Option (Option (ExtractedField F))
  unfolding member_of shown_json text_at float_at int_at
  field_of_members m = elim (member_of (text "value") m) [
    | none ↦ some none
    | some v ↦
        if has_no_value (some v)
        then some none
        else caught (float_at (text "confidence") m) (λ conf.
          caught (int_at parse_int (text "source_segment_index") m) (λ index. some (
            if in_unit conf
            then some (record {
              value = shown_json v;
              reference = text_at (text "reference") [] m;
              confidence = conf;
              source_segment_index = index;
            })
            else none)))
  ]

  unfoldable pub field_of : Json F → Option (Option (ExtractedField F))
  unfolding field_of_members
  field_of (object shown m) = field_of_members m
  field_of _ = some none

  -- `self._field(data.get(key))`
  unfoldable pub field_at : Text → Members F → Option (Option (ExtractedField F))
  unfolding member_of field_of
  field_at key m = elim (member_of key m) [ none ↦ some none | some x ↦ field_of x ]

  -- `self._fields(data.get(key))`
  unfoldable pub fields_at : Text → Members F → Option (List (ExtractedField F))
  unfolding member_of list_of collect field_of
  fields_at key m = elim (member_of key m) [
    | some (array shown items) ↦ collect field_of (list_of items)
    | _ ↦ some []
  ]

  unfoldable pub condition_of_members : Members F → Option (Option (RawApplicabilityCondition F))
  unfolding text_at true_text_at float_at
  condition_of_members m = caught (float_at (text "confidence") m) (λ conf. some (
      if in_unit conf
      then some (record {
        parameter_name = text_at (text "parameter_name") [] m;
        operator = text_at (text "operator") [] m;
        value = text_at (text "value") [] m;
        unit = true_text_at (text "unit") m;
        value_type = true_text_at (text "value_type") m;
        condition_type = text_at (text "condition_type") (text "inclusion") m;
        reference = text_at (text "reference") [] m;
        confidence = conf;
        raw_text = text_at (text "raw_text") (text_at (text "value") [] m) m;
      })
      else none))

  unfoldable pub raw_condition_of : Json F → Option (Option (RawApplicabilityCondition F))
  unfolding condition_of_members
  raw_condition_of (object shown m) = condition_of_members m
  raw_condition_of _ = some none

  unfoldable pub route_of_members : Members F → Option (Option (ConformityRoute F))
  unfolding member_of text_at true_text_at float_at int_at modules_of
  route_of_members m = caught (float_at (text "confidence") m) (λ conf.
      caught (int_at parse_int (text "source_segment_index") m) (λ index. some (
        if in_unit conf
        then some (record {
          category = text_at (text "category") [] m;
          modules = modules_of (member_of (text "modules") m);
          condition = true_text_at (text "condition") m;
          reference = text_at (text "reference") [] m;
          confidence = conf;
          source_segment_index = index;
        })
        else none)))

  unfoldable pub route_of : Json F → Option (Option (ConformityRoute F))
  unfolding route_of_members
  route_of (object shown m) = route_of_members m
  route_of _ = some none

  -- `for key in _SCALAR_FIELDS`
  unfoldable pub parse_scalars : Members F → Option (Scalars F)
  unfolding field_at
  parse_scalars m = do
    scope ← field_at (text "scope_description") m
    testing ← field_at (text "conformity_path_testing") m
    inspection ← field_at (text "conformity_path_inspection") m
    assessment ← field_at (text "conformity_assessment_type") m
    body ← field_at (text "conformity_body_type") m
    technical ← field_at (text "technical_documentation") m
    production ← field_at (text "production_type") m
    some (record {
      scope_description = scope;
      conformity_path_testing = testing;
      conformity_path_inspection = inspection;
      conformity_assessment_type = assessment;
      conformity_body_type = body;
      technical_documentation = technical;
      production_type = production;
    })

  -- `for key in _ARRAY_FIELDS`
  unfoldable pub parse_arrays : Members F → Option (Arrays F)
  unfolding fields_at
  parse_arrays m = do
    params ← fields_at (text "scope_params") m
    hs ← fields_at (text "hs_codes") m
    docs ← fields_at (text "conformity_docs") m
    entities ← fields_at (text "legal_entities") m
    standards ← fields_at (text "standards_references") m
    harmonized ← fields_at (text "standards_harmonized") m
    marks ← fields_at (text "markings") m
    bodies ← fields_at (text "certification_bodies") m
    excluded ← fields_at (text "exclusions") m
    some (record {
      scope_params = params;
      hs_codes = hs;
      conformity_docs = docs;
      legal_entities = entities;
      standards_references = standards;
      standards_harmonized = harmonized;
      markings = marks;
      certification_bodies = bodies;
      exclusions = excluded;
    })

  -- the loop over the clauses, and the one over the routes
  unfoldable pub parse_conditions : Members F → Option (List (RawApplicabilityCondition F))
  unfolding member_of iterated_or_none collect raw_condition_of
  parse_conditions m = do
    clauses ← iterated_or_none (member_of (text "applicability_conditions") m)
    collect raw_condition_of clauses

  unfoldable pub parse_routes : Members F → Option (List (ConformityRoute F))
  unfolding member_of iterated_or_none collect route_of
  parse_routes m = do
    listed ← iterated_or_none (member_of (text "conformity_routes") m)
    collect route_of listed

  -- `_parse`
  unfoldable pub parse : Members F → Option (ExtractOutput F)
  unfolding parse_scalars parse_arrays member_of summary_of mentions_of parse_conditions
      parse_routes
  parse m = do
    scalars ← parse_scalars m
    arrays ← parse_arrays m
    mentions ← mentions_of (member_of (text "regulation_mentions") m)
    conds ← parse_conditions m
    routes ← parse_routes m
    some (record {
      summary = summary_of (member_of (text "summary") m);
      scope_description = scalars.scope_description;
      conformity_path_testing = scalars.conformity_path_testing;
      conformity_path_inspection = scalars.conformity_path_inspection;
      conformity_assessment_type = scalars.conformity_assessment_type;
      conformity_body_type = scalars.conformity_body_type;
      technical_documentation = scalars.technical_documentation;
      production_type = scalars.production_type;
      scope_params = arrays.scope_params;
      hs_codes = arrays.hs_codes;
      conformity_docs = arrays.conformity_docs;
      legal_entities = arrays.legal_entities;
      standards_references = arrays.standards_references;
      standards_harmonized = arrays.standards_harmonized;
      markings = arrays.markings;
      certification_bodies = arrays.certification_bodies;
      exclusions = arrays.exclusions;
      conformity_routes = routes;
      regulation_mentions = mentions;
      applicability_conditions = conds;
    })
