-- ===== src/Ui/Reasons.antt =====
-- The reason that the queue recomputes for a row against the flag that the Validation Agent raised.
use compliance_wizard_engine.Prelude.{
  ℕ, ◌≡◌, ◌≢◌, refl, false, not, List, [], ◌∷◌, Text, text, opt_text_or, Floats, if_ind,
  if◌then◌else◌, arith, ◌==◌, text_eq, text_beq, text_beq_iff,
}
use compliance_wizard_engine.Store.{CanonicalValue, plain, body, route}
use compliance_wizard_engine.Schemas.{
  ApplicabilityCondition, MappedField, Reason, low_confidence, consistency_fail,
  unstructured_condition, unresolved_alias, invalid_hs, missing_required_field, unknown_parameter,
  ReviewFlag,
}
use compliance_wizard_engine.Validation.{format_checks, condition_flags, text_value, is_unresolved}
use compliance_wizard_engine.Pipeline.Persist.{
  field_row, condition_row, value_text_of, value_json_of,
}
use compliance_wizard_engine.Ui.ReviewHelpers.{
  derive_field_reason, derive_condition_reason, is_unresolved_body,
}

-- The slug of a flag's reason, as schemas/validation.py spells it.
unfoldable pub slug : Reason → Text
slug low_confidence = text "low_confidence"
slug consistency_fail = text "consistency_fail"
slug unstructured_condition = text "unstructured_condition"
slug unresolved_alias = text "unresolved_alias"
slug invalid_hs = text "invalid_hs"
slug missing_required_field = text "missing_required_field"
slug unknown_parameter = text "unknown_parameter"

-- The first flag's slug, or "flagged" where there is none.
abbrev pub first_slug : List ReviewFlag → Text
first_slug [] = text "flagged"
first_slug (f ∷ flags) = slug f.reason

stored_hs : (v : CanonicalValue) → opt_text_or (value_text_of v) [] ≡ text_value v
stored_hs (plain []) = refl
stored_hs (plain (c ∷ s)) = refl
stored_hs (body name id resolved) = refl
stored_hs (route category modules cond) = refl

stored_body : (v : CanonicalValue) → is_unresolved_body (value_json_of v) ≡ is_unresolved v
stored_body (plain t) = refl
stored_body (body name id resolved) = refl
stored_body (route category modules cond) = refl

differs : (s t : Text) → (s == t) ≡ false → s ≢ t
differs s t h e = cc (h, (text_beq_iff s t).1 e)

unstructured_differs : (text "unstructured_condition" == slug unknown_parameter) ≡ false
unfolding slug text_beq
unstructured_differs = refl

low_differs : (text "low_confidence" == slug unknown_parameter) ≡ false
unfolding slug text_beq
low_differs = refl

flagged_differs : (text "flagged" == slug unknown_parameter) ≡ false
unfolding slug text_beq
flagged_differs = refl

module _ {F : Type 0} ⦃fl : Floats F⦄ where
  -- For a field as the pipeline stores it, the queue shows a low confidence first, and otherwise the
  -- first of the flags that the format checks raise for it.
  pub derive_field_reason-flags :
      (threshold : F) (reg : ℕ) (flags : List ReviewFlag) (f : MappedField F)
      → derive_field_reason threshold (field_row threshold reg flags f) ≡ (
          if fl.flt f.confidence threshold
          then slug low_confidence
          else first_slug (format_checks (f ∷ [])))
  unfolding derive_field_reason field_row format_checks slug
  derive_field_reason-flags threshold reg flags f =
      ground (arith, stored_hs f.canonical_value, stored_body f.canonical_value)

  condition_reason :
      (known_params : List Text) (threshold : F) (reg i : ℕ) (flags : List ReviewFlag)
      (c : ApplicabilityCondition F)
      → derive_condition_reason threshold (condition_row threshold reg flags i c) ≡ (
          if c.is_structured
          then if fl.flt c.confidence threshold then slug low_confidence else text "flagged"
          else first_slug (condition_flags known_params i c))
  unfolding derive_condition_reason condition_row slug
  condition_reason known_params threshold reg i flags c = ground arith

  -- For a condition as the pipeline stores it, the queue shows the first of its flags, except that an
  -- unknown parameter is never named: such a row shows a low confidence, or no reason of its own.
  pub derive_condition_reason-flags :
      (known_params : List Text) (threshold : F) (reg i : ℕ) (flags : List ReviewFlag)
      (c : ApplicabilityCondition F)
      → (derive_condition_reason threshold (condition_row threshold reg flags i c) ≡ (
          if c.is_structured
          then if fl.flt c.confidence threshold then slug low_confidence else text "flagged"
          else first_slug (condition_flags known_params i c)))
        × (derive_condition_reason threshold (condition_row threshold reg flags i c)
            ≢ slug unknown_parameter)
  unfolding derive_condition_reason condition_row
  derive_condition_reason-flags known_params threshold reg i flags c =
      let other = λ (t : Text). t ≢ slug unknown_parameter in
      (
        condition_reason known_params threshold reg i flags c,
        if_ind other (not c.is_structured) (differs _ _ unstructured_differs) (
            if_ind other (fl.flt c.confidence threshold) (differs _ _ low_differs)
              (differs _ _ flagged_differs)),
      )
