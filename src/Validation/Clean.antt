-- ===== src/Validation/Clean.antt =====
-- When a record is approved without a reviewer (agents/validation_agent.py, `run`).
use compliance_wizard_engine.Prelude.{
  ℕ, suc, ◌≡◌, ◌↔◌, ◌⊎◌, refl, Bool, true, false, List, [], ◌∷◌, ◌++◌, Text, text, is_empty, All,
  arith, Floats,
}
use compliance_wizard_engine.Vocabulary.{auto_approved}
use compliance_wizard_engine.Schemas.{
  ApplicabilityCondition, MappedField, MappingOutput, Reason, FlagTarget, ReviewFlag,
}
use compliance_wizard_engine.Validation.Demands.{Says}
use compliance_wizard_engine.Validation.Presence.{
  Has, Exists, IsFormatted, format_checked, IsMarkedAtHome, Passes, markings_at_home, body_named,
  standard_named, production_named, IsKnown, known_condition,
}
use compliance_wizard_engine.Validation.{
  flag_if, format_checks, marking_checks, consistency_checks, condition_checks,
  field_confidence_checks, condition_confidence_checks, all_flags, validate,
}

is_empty-append :
    (as' bs : List ReviewFlag)
    → (is_empty (as' ++ bs) ≡ true) ↔ ((is_empty as' ≡ true) × (is_empty bs ≡ true))
is_empty-append [] bs = (λ h. (refl, h), λ h. h.1)
is_empty-append (a ∷ as') bs = (λ h. cc, λ h. cc h.0)

is_empty-flag_if :
    (b : Bool) (target : FlagTarget) (reason : Reason)
    → (is_empty (flag_if b target reason) ≡ true) ↔ (b ≡ false)
is_empty-flag_if true target reason = (λ h. cc, λ h. cc)
is_empty-flag_if false target reason = (λ h. refl, λ h. refl)

module _ {F : Type 0} where
  format_clean :
      (fields : List (MappedField F))
      → (is_empty (format_checks fields) ≡ true) ↔ All IsFormatted fields
  unfolding format_checks
  format_clean [] = (λ h. tt, λ h. refl)
  format_clean (f ∷ fields) = (
    λ h. ((format_checked f).0 (ground arith), (format_clean fields).0 (ground arith)),
    λ h.
        let (hs, body) = (format_checked f).1 h.0 in
        ground (arith, hs, body, (format_clean fields).1 h.1),
  )

  marking_clean :
      (jurisdiction : Text) (fields : List (MappedField F))
      → (is_empty (marking_checks jurisdiction fields) ≡ true) ↔ All (Passes jurisdiction) fields
  unfolding marking_checks
  marking_clean jurisdiction [] = (λ h. tt, λ h. refl)
  marking_clean jurisdiction (f ∷ fields) = (
    λ h. ground (arith, (marking_clean jurisdiction fields).0),
    λ h. ground (arith, (marking_clean jurisdiction fields).1 h.1),
  )

  consistency_clean :
      (fields : List (MappedField F)) (jurisdiction : Text)
      → (is_empty (consistency_checks fields jurisdiction) ≡ true) ↔ (
          (Has (text "conformity_assessment_type") (Says (text "3rd-party")) fields
            → Exists (text "certification_body") fields)
          × (Has (text "marking") (Says (text "CE")) fields
              → Exists (text "standard_harmonized") fields)
          × All (IsMarkedAtHome jurisdiction) fields
          × ((Exists (text "conformity_path_testing") fields
                ⊎ Exists (text "conformity_path_inspection") fields)
              → Exists (text "production_type") fields))
  unfolding consistency_checks
  consistency_clean fields jurisdiction = (
    λ h.
        let (no_body, h1) = (is_empty-append _ _).0 h in
        let (no_standard, h2) = (is_empty-append _ _).0 h1 in
        let (home, type_given) = (is_empty-append _ _).0 h2 in
        (
          (body_named fields).0 ((is_empty-flag_if _ _ _).0 no_body),
          (standard_named fields).0 ((is_empty-flag_if _ _ _).0 no_standard),
          (markings_at_home jurisdiction fields).0 ((marking_clean jurisdiction _).0 home),
          (production_named fields).0 ((is_empty-flag_if _ _ _).0 type_given),
        ),
    λ h. (is_empty-append _ _).1 (
      (is_empty-flag_if _ _ _).1 ((body_named fields).1 h.0),
      (is_empty-append _ _).1 (
        (is_empty-flag_if _ _ _).1 ((standard_named fields).1 h.1),
        (is_empty-append _ _).1 (
          (marking_clean jurisdiction _).1 ((markings_at_home jurisdiction fields).1 h.2),
          (is_empty-flag_if _ _ _).1 ((production_named fields).1 h.3),
        ),
      ),
    ),
  )

  condition_clean :
      (known_params : List Text) (i : ℕ) (conds : List (ApplicabilityCondition F))
      → (is_empty (condition_checks known_params i conds) ≡ true) ↔ All (IsKnown known_params) conds
  unfolding condition_checks
  condition_clean known_params i [] = (λ h. tt, λ h. refl)
  condition_clean known_params i (c ∷ conds) = (
    λ h. (
      (known_condition known_params c).0 (ground arith),
      (condition_clean known_params (suc i) conds).0 (ground arith),
    ),
    λ h.
        let (structured, known) = (known_condition known_params c).1 h.0 in
        ground (arith, structured, known, (condition_clean known_params (suc i) conds).1 h.1),
  )

  module _ ⦃fl : Floats F⦄ where
    field_confidence_clean :
        (threshold : F) (fields : List (MappedField F))
        → (is_empty (field_confidence_checks threshold fields) ≡ true)
          ↔ All (λ f. fl.flt f.confidence threshold ≡ false) fields
    unfolding field_confidence_checks
    field_confidence_clean threshold [] = (λ h. tt, λ h. refl)
    field_confidence_clean threshold (f ∷ fields) = (
      λ h. ground (arith, (field_confidence_clean threshold fields).0),
      λ h. ground (arith, (field_confidence_clean threshold fields).1 h.1),
    )

    condition_confidence_clean :
        (threshold : F) (i : ℕ) (conds : List (ApplicabilityCondition F))
        → (is_empty (condition_confidence_checks threshold i conds) ≡ true)
          ↔ All (λ c. fl.flt c.confidence threshold ≡ false) conds
    unfolding condition_confidence_checks
    condition_confidence_clean threshold i [] = (λ h. tt, λ h. refl)
    condition_confidence_clean threshold i (c ∷ conds) = (
      λ h. ground (arith, (condition_confidence_clean threshold (suc i) conds).0),
      λ h. ground (arith, (condition_confidence_clean threshold (suc i) conds).1 h.1),
    )

    -- What a record has to satisfy to need no reviewer.
    pub record IsClean (known_params : List Text) (threshold : F) (m : MappingOutput F)
        : Type 0 where
      pub formatted : All IsFormatted m.fields
      pub with_body :
          Has (text "conformity_assessment_type") (Says (text "3rd-party")) m.fields
          → Exists (text "certification_body") m.fields
      pub with_standard :
          Has (text "marking") (Says (text "CE")) m.fields
          → Exists (text "standard_harmonized") m.fields
      pub at_home : All (IsMarkedAtHome m.jurisdiction) m.fields
      pub with_production_type :
          (Exists (text "conformity_path_testing") m.fields
            ⊎ Exists (text "conformity_path_inspection") m.fields)
          → Exists (text "production_type") m.fields
      pub known : All (IsKnown known_params) m.applicability_conditions
      pub sure_fields : All (λ f. fl.flt f.confidence threshold ≡ false) m.fields
      pub sure_conditions :
          All (λ c. fl.flt c.confidence threshold ≡ false) m.applicability_conditions

    all_flags-empty :
        (known_params : List Text) (threshold : F) (m : MappingOutput F)
        → (is_empty (all_flags known_params threshold m) ≡ true) ↔ IsClean known_params threshold m
    unfolding all_flags
    all_flags-empty known_params threshold m = (
      λ h.
          let (formatted, h1) = (is_empty-append (format_checks m.fields) _).0 h in
          let (consistent, h2) =
            (is_empty-append (consistency_checks m.fields m.jurisdiction) _).0 h1 in
          let (known, h3) =
            (is_empty-append (condition_checks known_params 0 m.applicability_conditions) _).0 h2 in
          let (sure, sure_conds) =
            (is_empty-append (field_confidence_checks threshold m.fields) _).0 h3 in
          let parts = (consistency_clean m.fields m.jurisdiction).0 consistent in
          record {
            formatted = (format_clean m.fields).0 formatted;
            with_body = parts.0;
            with_standard = parts.1;
            at_home = parts.2;
            with_production_type = parts.3;
            known = (condition_clean known_params 0 m.applicability_conditions).0 known;
            sure_fields = (field_confidence_clean threshold m.fields).0 sure;
            sure_conditions =
                (condition_confidence_clean threshold 0 m.applicability_conditions).0 sure_conds;
          },
      λ c. (is_empty-append _ _).1 (
        (format_clean m.fields).1 c.formatted,
        (is_empty-append _ _).1 (
          (consistency_clean m.fields m.jurisdiction).1
              (c.with_body, c.with_standard, c.at_home, c.with_production_type),
          (is_empty-append _ _).1 (
            (condition_clean known_params 0 m.applicability_conditions).1 c.known,
            (is_empty-append _ _).1 (
              (field_confidence_clean threshold m.fields).1 c.sure_fields,
              (condition_confidence_clean threshold 0 m.applicability_conditions).1
                  c.sure_conditions,
            ),
          ),
        ),
      ),
    )

    -- A record is approved without a reviewer exactly when it is clean: its HS codes have 6, 8 or 10
    -- digits, and at most a newline behind them, its bodies are resolved, a third-party assessment
    -- names a body, a CE marking a harmonized standard and a conformity path a production type, no
    -- marking belongs to another jurisdiction than the record's, if that is known, and each field and
    -- condition reaches the threshold, the conditions structured and over known parameters.
    pub validate-auto_approved_iff :
        (known_params : List Text) (threshold : F) (m : MappingOutput F)
        → ((validate known_params threshold m).review_status ≡ auto_approved)
          ↔ IsClean known_params threshold m
    unfolding validate
    validate-auto_approved_iff known_params threshold m = (
      λ h. (all_flags-empty known_params threshold m).0 (ground arith),
      λ h. rw ((all_flags-empty known_params threshold m).1 h),
    )
