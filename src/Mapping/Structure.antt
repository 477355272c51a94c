-- ===== src/Mapping/Structure.antt =====
-- `_structure` of agents/mapping_agent.py: a raw clause to a condition, structured where its type
-- and its value allow it. None stands for the ValidationError of a record that is no valid schema.
use compliance_wizard_engine.Prelude.{
  Bool, true, false, ◌||◌, Option, none, some, List, [], ◌∷◌, map, Text, text, is_nil, lower,
  has_part, is_empty, length, leb, ◌==◌, text_eq, if◌then◌else◌, Floats, fmin, fmax,
}
use compliance_wizard_engine.Vocabulary.{
  ConditionType, inclusion, exclusion, Operator, gt, lt, gte, lte, eq, in_list, not_in,
  AttributeValueType, range, enum, boolean,
}
use compliance_wizard_engine.Schemas.{
  RawApplicabilityCondition, ApplicabilityCondition, condition_of,
}
use compliance_wizard_engine.Mapping.Normalize.{
  lookup, norm_param, norm_operator, norm_vtype, parse_bool, parse_enum, numerals,
}

-- What `_structure` finds out about a value, in the record's columns.
pub record Bounds (F : Type 0) : Type 0 where
  pub operator : Option Operator
  pub value_min : Option F
  pub value_max : Option F

-- Type precedence: controlled vocabulary, then the hint, then the value.
unfoldable pub value_type_of :
    List (Text × AttributeValueType) → Text → Option Text → Bool → AttributeValueType
value_type_of attr_types param hint has_numbers = elim (lookup param attr_types) [
  | some t ↦ t
  | none ↦ elim (norm_vtype hint) [ some t ↦ t | none ↦ if has_numbers then range else enum ]
]

unfoldable pub condition_type_of : Text → ConditionType
condition_type_of s = if has_part (text "excl") (lower s) then exclusion else inclusion

module _ {F : Type 0} ⦃fl : Floats F⦄ where
  -- `min(nums)` and `max(nums)` of a list with a first number
  unfoldable pub least : F → List F → F
  unfolding fmin
  least x [] = x
  least x (y ∷ ys) = least (fmin x y) ys

  unfoldable pub greatest : F → List F → F
  unfolding fmax
  greatest x [] = x
  greatest x (y ∷ ys) = greatest (fmax x y) ys

  -- The numeric branch: the operator and the bounds, or None for "keep it for review".
  unfoldable pub bounds_of : Text → List F → Option (Bounds F)
  unfolding least greatest
  bounds_of op [] = none
  bounds_of op (x ∷ xs) =
      if leb 1 (length xs) || op == text "between"
      then some (record {
        operator = none;
        value_min = some (least x xs);
        value_max = some (greatest x xs);
      })
      else if op == text ">"
      then some (record { operator = some gt; value_min = some x; value_max = none })
      else if op == text ">="
      then some (record { operator = some gte; value_min = some x; value_max = none })
      else if op == text "<"
      then some (record { operator = some lt; value_min = none; value_max = some x })
      else if op == text "<="
      then some (record { operator = some lte; value_min = none; value_max = some x })
      else if op == text "=="
      then some (record { operator = some eq; value_min = some x; value_max = some x })
      else none

  unfoldable pub numbers_of : Text → List F
  numbers_of value = map fl.decimal (numerals 0 value)

  -- The condition that only keeps the clause's text.
  unfoldable pub unstructured_of : RawApplicabilityCondition F → ApplicabilityCondition F
  unfolding condition_type_of
  unstructured_of raw =
      let param = norm_param raw.parameter_name in
      record {
        parameter_name = if is_nil param then none else some param;
        operator = none;
        value_min = none;
        value_max = none;
        value_enum = none;
        value_bool = none;
        unit = raw.unit;
        condition_type = condition_type_of raw.condition_type;
        is_structured = false;
        raw_text = some raw.raw_text;
        reference = raw.reference;
        confidence = raw.confidence;
      }

  -- The branches on the value's type.
  unfoldable pub typed_condition :
      AttributeValueType → RawApplicabilityCondition F → ApplicabilityCondition F
  unfolding unstructured_of
  typed_condition boolean raw = elim (parse_bool raw.value) [
    | none ↦ unstructured_of raw
    | some b ↦ record (unstructured_of raw) {
      operator = some eq;
      value_bool = some b;
      is_structured = true;
    }
  ]
  typed_condition enum raw =
      let enums = parse_enum raw.value in
      if is_empty enums then unstructured_of raw else record (unstructured_of raw) {
        operator = some (if norm_operator raw.operator == text "not_in" then not_in else in_list);
        value_enum = some enums;
        is_structured = true;
      }
  typed_condition range raw = elim (bounds_of (norm_operator raw.operator) (numbers_of raw.value)) [
    | none ↦ unstructured_of raw
    | some b ↦ record (unstructured_of raw) {
      operator = b.operator;
      value_min = b.value_min;
      value_max = b.value_max;
      is_structured = true;
    }
  ]

  -- The type that `_structure` resolves for a clause.
  unfoldable pub resolved_type :
      List (Text × AttributeValueType) → RawApplicabilityCondition F → AttributeValueType
  unfolding value_type_of
  resolved_type attr_types raw =
      value_type_of attr_types (norm_param raw.parameter_name) raw.value_type
        (leb 1 (length (numerals 0 raw.value)))

  -- `_structure`; `unstructured` is built, and checked, whichever branch is taken.
  unfoldable pub structure :
      List (Text × AttributeValueType)
      → RawApplicabilityCondition F
      → Option (ApplicabilityCondition F)
  unfolding resolved_type typed_condition
  structure attr_types raw = elim (condition_of (unstructured_of raw)) [
    | none ↦ none
    | some unstructured ↦ condition_of (typed_condition (resolved_type attr_types raw) raw)
  ]
