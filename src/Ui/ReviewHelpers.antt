-- ===== src/Ui/ReviewHelpers.antt =====
-- ui/review_helpers.py: the reason why a row waits for a reviewer, and the texts that the queue shows.
-- `threshold` is CONFIDENCE_THRESHOLD; an age is given in whole seconds, 0 for a negative one.
use compliance_wizard_engine.Prelude.{
  joined, ℕ, ◌*◌, ◌/◌, Bool, true, false, ◌&&◌, not, Option, none, some, List, [], ◌∷◌, ◌++◌, Text,
  text, is_nil, strip, ltb, ◌==◌, nat_eq, text_eq, if◌then◌else◌, opt_text_or, text_or, Floats,
}
use compliance_wizard_engine.Vocabulary.{Operator, gt, lt, gte, lte, eq, in_list, not_in, contains}
use compliance_wizard_engine.Store.{CanonicalValue, plain, body, route, RegulationField, Condition}
use compliance_wizard_engine.Validation.{is_hs_code}

-- TYPE_LABELS.get(kind, kind)
unfoldable pub type_label : Text → Text
type_label kind =
    if kind == text "field"
    then text "Field"
    else if kind == text "condition"
    then text "Applicability condition"
    else kind

-- The labels of REASONS, and the slug itself for any other.
unfoldable pub reason_label : Text → Text
reason_label slug =
    if slug == text "low_confidence"
    then text "Low confidence"
    else if slug == text "invalid_hs"
    then text "Invalid HS code"
    else if slug == text "unresolved_alias"
    then text "Unresolved certification body"
    else if slug == text "unstructured_condition"
    then text "Unstructured condition"
    else if slug == text "unknown_parameter"
    then text "Unmapped parameter"
    else if slug == text "flagged"
    then text "Validation flag"
    else slug

-- `str` of an operator
unfoldable pub shown_operator : Operator → Text
shown_operator gt = text ">"
shown_operator lt = text "<"
shown_operator gte = text ">="
shown_operator lte = text "<="
shown_operator eq = text "=="
shown_operator in_list = text "in"
shown_operator not_in = text "not_in"
shown_operator contains = text "contains"

abbrev shown_bool : Bool → Text
shown_bool true = text "True"
shown_bool false = text "False"

unfoldable pub shown_value : CanonicalValue → Text
unfolding joined
shown_value (plain t) = t
shown_value (body name id resolved) = name
shown_value (route category modules cond) =
    let mods = text_or (joined (text ", ") modules) (text "(unspecified)") in
    if is_nil category then mods else text "Category " ++ (category ++ (text " → " ++ mods))

-- `value_json["resolved"]` of a body, and no such key in a route
abbrev pub is_resolved : CanonicalValue → Bool
is_resolved (body name id resolved) = resolved
is_resolved _ = false

-- `_plural`, with the number as a text
unfoldable pub plural : (ℕ → Text) → ℕ → Text → Text
plural digits_of n unit =
    digits_of n ++ (text " " ++ (unit ++ ((if n == 1 then [] else text "s") ++ text " ago")))

-- `relative_age`
unfoldable pub relative_age : (ℕ → Text) → Option ℕ → Text
unfolding plural
relative_age digits_of none = []
relative_age digits_of (some seconds) =
    if ltb seconds 60
    then text "just now"
    else if ltb seconds (60 * 60)
    then plural digits_of (seconds / 60) (text "minute")
    else if ltb seconds (24 * 3600)
    then plural digits_of (seconds / 3600) (text "hour")
    else if ltb seconds (30 * 86400)
    then plural digits_of (seconds / 86400) (text "day")
    else if ltb seconds (365 * 86400)
    then plural digits_of (seconds / 86400 / 30) (text "month")
    else plural digits_of (seconds / 86400 / 365) (text "year")

abbrev pub is_unresolved_body : Option CanonicalValue → Bool
is_unresolved_body none = false
is_unresolved_body (some v) = not (is_resolved v)

module _ {F : Type 0} ⦃fl : Floats F⦄ where
  -- `confidence is not None and confidence < CONFIDENCE_THRESHOLD`
  abbrev pub is_low : F → Option F → Bool
  is_low threshold none = false
  is_low threshold (some conf) = fl.flt conf threshold

  unfoldable pub derive_field_reason : F → RegulationField F → Text
  unfolding is_hs_code
  derive_field_reason threshold f =
      if is_low threshold f.confidence
      then text "low_confidence"
      else if f.field_name == text "hs_code" && not (is_hs_code (opt_text_or f.value_text []))
      then text "invalid_hs"
      else if f.field_name == text "certification_body" && is_unresolved_body f.value_json
      then text "unresolved_alias"
      else text "flagged"

  unfoldable pub derive_condition_reason : F → Condition F → Text
  derive_condition_reason threshold c =
      if not c.is_structured
      then text "unstructured_condition"
      else if is_low threshold c.confidence
      then text "low_confidence"
      else text "flagged"

  unfoldable pub display_value : RegulationField F → Text
  unfolding shown_value
  display_value f = elim f.value_json [
    | some v ↦ shown_value v
    | none ↦ opt_text_or f.value_text []
  ]

  -- The right-hand side of `condition_summary`.
  unfoldable pub summary_value : Option F → Option F → Option (List Text) → Option Bool → Text
  unfolding joined
  summary_value (some lo) (some hi) values flag = fl.show lo ++ (text "–" ++ fl.show hi)
  summary_value lo hi (some (v ∷ vs)) flag = joined (text ", ") (v ∷ vs)
  summary_value lo hi values (some b) = shown_bool b
  summary_value (some lo) hi values none = fl.show lo
  summary_value none (some hi) values none = fl.show hi
  summary_value none none values none = []

  unfoldable pub condition_summary : Condition F → Text
  unfolding summary_value shown_operator
  condition_summary c =
      if not c.is_structured
      then opt_text_or c.raw_text (text "(raw)")
      else let name = opt_text_or c.parameter_name (text "(parameter)") in
        let op : Text = elim c.operator [ none ↦ [] | some o ↦ shown_operator o ] in
        let rhs = summary_value c.value_min c.value_max c.value_enum c.value_bool in
        let unit : Text = elim c.unit [
          | none ↦ []
          | some u ↦ if is_nil u then [] else text " " ++ u
        ] in
        strip (name ++ (text " " ++ (op ++ (text " " ++ (rhs ++ unit)))))
