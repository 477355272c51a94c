-- ===== src/Wizard/Evaluation.antt =====
-- engine/wizard_matcher.py, `_evaluate` and `_num`: one condition against the attributes of a product.
use compliance_wizard_engine.Prelude.{
  Bool, true, false, ◌&&◌, not, Option, none, some, List, [], ◌∷◌, Text, text, is_nil, contains,
  ◌==◌, nat_eq, text_eq, if◌then◌else◌, Floats,
}
use compliance_wizard_engine.Vocabulary.{Operator, gt, lt, gte, lte, eq, not_in}
use compliance_wizard_engine.Store.{Condition}

-- A product attribute as JSON gives it. A number carries its float and its `str`: None for an
-- integer that is too large for a float. An array or an object carries its `str` and whether it has members.
pub data Value (F : Type 0) : Type 0 where
  null : Value F
  bool : Bool → Value F
  number : (as_float : Option F) → (shown : Text) → Value F
  string : Text → Value F
  container : (shown : Text) → (has_members : Bool) → Value F

abbrev pub Attributes : Type 0 → Type 0
Attributes F = List (Text × Value F)

-- `_evaluate`'s pair: TRUE, FALSE, MISSING with its parameter, UNSTRUCTURED; or raised,
-- where the call ends in an exception.
pub data Outcome : Type 0 where
  met unmet unstructured raised : Outcome
  missing : Text → Outcome

abbrev pub judge : Bool → Outcome
judge b = if b then met else unmet

abbrev pub bool_beq : Bool → Bool → Bool
bool_beq true b = b
bool_beq false b = not b

abbrev pub is_not_in : Option Operator → Bool
is_not_in (some not_in) = true
is_not_in _ = false

module _ {F : Type 0} ⦃fl : Floats F⦄ where
  unfoldable pub attribute : Text → Attributes F → Option (Value F)
  attribute p [] = none
  attribute p ((q, v) ∷ attrs) = if q == p then some v else attribute p attrs

  -- `bool(u)`
  unfoldable pub truthy : Value F → Bool
  truthy null = false
  truthy (bool b) = b
  truthy (number (some x) shown) = not (fl.feq x (fl.milli 0))
  truthy (number none shown) = true
  truthy (string s) = not (is_nil s)
  truthy (container shown has_members) = has_members

  -- `str(u)`
  unfoldable pub shown_as : Value F → Text
  shown_as null = text "None"
  shown_as (bool true) = text "True"
  shown_as (bool false) = text "False"
  shown_as (number x shown) = shown
  shown_as (string s) = s
  shown_as (container shown has_members) = shown

  -- `_num`: `float(x)`, and inside it none where that raises TypeError or ValueError. It is none where
  -- `float` raises OverflowError, which `_num` lets through.
  unfoldable pub to_float : Value F → Option (Option F)
  to_float null = some none
  to_float (bool true) = some (some (fl.milli 1000))
  to_float (bool false) = some (some (fl.milli 0))
  to_float (number none shown) = none
  to_float (number (some x) shown) = some (some x)
  to_float (string s) = some (fl.parse s)
  to_float (container shown has_members) = some none

  -- `bound is not None and test(bound)`
  abbrev pub holds : (F → Bool) → Option F → Bool
  holds test none = false
  holds test (some bound) = test bound

  -- The chain of comparisons: both bounds first, then the operator, then a lone bound.
  unfoldable pub compare_number : Option Operator → Option F → Option F → F → Outcome
  compare_number op (some vmin) (some vmax) un = judge (fl.fle vmin un && fl.fle un vmax)
  compare_number (some gt) vmin vmax un = judge (holds (λ b. fl.flt b un) vmin)
  compare_number (some gte) vmin vmax un = judge (holds (λ b. fl.fle b un) vmin)
  compare_number (some lt) vmin vmax un = judge (holds (λ b. fl.flt un b) vmax)
  compare_number (some lte) vmin vmax un = judge (holds (λ b. fl.fle un b) vmax)
  compare_number (some eq) vmin vmax un = judge (holds (λ b. fl.feq un b) vmin)
  compare_number op (some vmin) none un = judge (fl.fle vmin un)
  compare_number op none (some vmax) un = judge (fl.fle un vmax)
  compare_number op none none un = unstructured

  unfoldable pub compare_value : Condition F → Text → Value F → Outcome
  unfolding truthy shown_as to_float compare_number
  compare_value c p u = elim c.value_bool [
    | some b ↦ judge (bool_beq (truthy u) b)
    | none ↦ elim c.value_enum [
      | some values ↦
          let in_values = contains (shown_as u) values in
          if is_not_in c.operator then judge (not in_values) else judge in_values
      | none ↦ elim (to_float u) [
        | none ↦ raised
        | some x ↦ elim x [
          | none ↦ missing p
          | some un ↦ compare_number c.operator c.value_min c.value_max un
        ]
      ]
    ]
  ]

  -- `_evaluate`
  unfoldable pub evaluate : Attributes F → Condition F → Outcome
  unfolding attribute compare_value
  evaluate attrs c = if not c.is_structured then unstructured else elim c.parameter_name [
    | none ↦ unstructured
    | some p ↦ elim (attribute p attrs) [ none ↦ missing p | some u ↦ compare_value c p u ]
  ]
