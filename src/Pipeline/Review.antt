-- ===== src/Pipeline/Review.antt =====
-- Which stored conditions wait for a reviewer: validation and `_persist` together.
use compliance_wizard_engine.Prelude.{
  ℕ, suc, ◌≤◌, ◌<◌, ◌≡◌, refl, ◌∙◌, Bool, true, false, Option, none, some, ◌==◌, text_eq,
  if◌then◌else◌, ◌&&◌, ◌||◌, not, List, [], ◌∷◌, map, Text, any, any-append, contains, arith,
  Floats, nat_eq,
}
use compliance_wizard_engine.Vocabulary.{ReviewStatus, pending, auto_approved}
use compliance_wizard_engine.Schemas.{
  ApplicabilityCondition, MappedField, MappingOutput, field, Reason, ReviewFlag,
}
use compliance_wizard_engine.Validation.{
  flag_if, is_unknown, format_checks, marking_checks, consistency_checks, condition_checks,
  field_confidence_checks, condition_confidence_checks, all_flags,
}
use compliance_wizard_engine.Pipeline.Persist.{names_condition, condition_row, condition_rows}

flag_if-field :
    (i : ℕ) (b : Bool) (name : Text) (reason : Reason)
    → any (names_condition i) (flag_if b (field name) reason) ≡ false
flag_if-field i b name reason = ground arith

module _ {F : Type 0} where
  format_checks-fields :
      (i : ℕ) (fields : List (MappedField F))
      → any (names_condition i) (format_checks fields) ≡ false
  unfolding format_checks
  format_checks-fields i [] = refl
  format_checks-fields i (f ∷ fields) = ground (arith, format_checks-fields i fields)

  marking_checks-fields :
      (i : ℕ) (jurisdiction : Text) (fields : List (MappedField F))
      → any (names_condition i) (marking_checks jurisdiction fields) ≡ false
  unfolding marking_checks
  marking_checks-fields i jurisdiction [] = refl
  marking_checks-fields i jurisdiction (f ∷ fields) =
      ground (arith, marking_checks-fields i jurisdiction fields)

  consistency_checks-fields :
      (i : ℕ) (fields : List (MappedField F)) (jurisdiction : Text)
      → any (names_condition i) (consistency_checks fields jurisdiction) ≡ false
  unfolding consistency_checks
  consistency_checks-fields i fields jurisdiction =
      simp (any-append, flag_if-field, marking_checks-fields)

  -- No check from index k on names an earlier condition.
  condition_checks-later :
      (known_params : List Text) (i k : ℕ) (conds : List (ApplicabilityCondition F))
      → i < k
      → any (names_condition i) (condition_checks known_params k conds) ≡ false
  unfolding condition_checks
  condition_checks-later known_params i k [] h = refl
  condition_checks-later known_params i k (c ∷ conds) h =
      let q : i < suc k = omega (arith, h) in
      ground (arith, condition_checks-later known_params i (suc k) conds q)

-- A parameter that is in the controlled vocabulary, or that has no name to look up.
abbrev pub is_known : List Text → Option Text → Bool
is_known known_params none = true
is_known known_params (some []) = true
is_known known_params (some (c ∷ s)) = any (λ k. c ∷ s == k) known_params

contains-any : (t : Text) (ts : List Text) → contains t ts ≡ any (λ k. t == k) ts
contains-any t [] = refl
contains-any t (u ∷ ts) = ground (arith, contains-any t ts)

is_unknown-is_known :
    (known_params : List Text) (p : Option Text)
    → is_unknown known_params p ≡ not (is_known known_params p)
is_unknown-is_known known_params none = refl
is_unknown-is_known known_params (some []) = refl
is_unknown-is_known known_params (some (c ∷ s)) = rw (contains-any (c ∷ s) known_params) refl

module _ {F : Type 0} ⦃fl : Floats F⦄ where
  field_confidence_checks-fields :
      (i : ℕ) (threshold : F) (fields : List (MappedField F))
      → any (names_condition i) (field_confidence_checks threshold fields) ≡ false
  unfolding field_confidence_checks
  field_confidence_checks-fields i threshold [] = refl
  field_confidence_checks-fields i threshold (f ∷ fields) =
      ground (arith, field_confidence_checks-fields i threshold fields)

  condition_confidence_checks-later :
      (threshold : F) (i k : ℕ) (conds : List (ApplicabilityCondition F))
      → i < k
      → any (names_condition i) (condition_confidence_checks threshold k conds) ≡ false
  unfolding condition_confidence_checks
  condition_confidence_checks-later threshold i k [] h = refl
  condition_confidence_checks-later threshold i k (c ∷ conds) h =
      let q : i < suc k = omega (arith, h) in
      ground (arith, condition_confidence_checks-later threshold i (suc k) conds q)

  -- A condition that no reviewer has to see.
  abbrev pub is_sound : List Text → F → ApplicabilityCondition F → Bool
  is_sound known_params threshold c =
      c.is_structured
      && is_known known_params c.parameter_name
      && not (fl.flt c.confidence threshold)

  abbrev pub review_of : List Text → F → ApplicabilityCondition F → ReviewStatus
  review_of known_params threshold c =
      if is_sound known_params threshold c then auto_approved else pending

  -- The flags that concern conditions, from index k on.
  abbrev flags_from : List Text → F → ℕ → List (ApplicabilityCondition F) → ℕ → Bool
  flags_from known_params threshold k conds i =
      any (names_condition i) (condition_checks known_params k conds)
      || any (names_condition i) (condition_confidence_checks threshold k conds)

  all_flags-condition :
      (known_params : List Text) (threshold : F) (m : MappingOutput F) (i : ℕ)
      → any (names_condition i) (all_flags known_params threshold m)
        ≡ flags_from known_params threshold 0 m.applicability_conditions i
  unfolding all_flags
  all_flags-condition known_params threshold m i = simp (
    any-append, contains, format_checks-fields, consistency_checks-fields,
    field_confidence_checks-fields,
  )

  flags_from-head :
      (known_params : List Text) (threshold : F) (k : ℕ) (c : ApplicabilityCondition F)
      (conds : List (ApplicabilityCondition F))
      → (flags_from known_params threshold k (c ∷ conds) k
          || not c.is_structured
          || fl.flt c.confidence threshold)
        ≡ not (is_sound known_params threshold c)
  unfolding condition_checks condition_confidence_checks
  flags_from-head known_params threshold k c conds =
      let q : k < suc k = omega arith in
      ground (
        arith,
        is_unknown-is_known known_params c.parameter_name,
        condition_checks-later known_params k (suc k) conds q,
        condition_confidence_checks-later threshold k (suc k) conds q,
      )

  flags_from-tail :
      (known_params : List Text) (threshold : F) (k i : ℕ) (c : ApplicabilityCondition F)
      (conds : List (ApplicabilityCondition F))
      → suc k ≤ i
      → flags_from known_params threshold k (c ∷ conds) i
        ≡ flags_from known_params threshold (suc k) conds i
  unfolding condition_checks condition_confidence_checks
  flags_from-tail known_params threshold k i c conds h = ground arith

  condition_rows-status :
      (known_params : List Text) (threshold : F) (reg k : ℕ) (flags : List ReviewFlag)
      (conds : List (ApplicabilityCondition F))
      → ((i : ℕ)
          → k ≤ i
          → any (names_condition i) flags ≡ flags_from known_params threshold k conds i)
      → map (λ row. row.review_status) (condition_rows threshold reg flags k conds)
        ≡ map (review_of known_params threshold) conds
  unfolding condition_rows condition_row
  condition_rows-status known_params threshold reg k flags [] h = refl
  condition_rows-status known_params threshold reg k flags (c ∷ conds) h =
      let here : any (names_condition k) flags ≡ flags_from known_params threshold k (c ∷ conds) k =
        h k (omega arith) in
      let rest =
        condition_rows-status known_params threshold reg (suc k) flags conds (λ i le.
          h i (omega (arith, le)) ∙ flags_from-tail known_params threshold k i c conds le) in
      let head = flags_from-head known_params threshold k c conds in
      ground (arith, here, rest, head)

  -- A stored condition is approved without a reviewer exactly when it is structured, its parameter,
  -- if it has a name, is in the controlled vocabulary, and its confidence reaches the threshold; each
  -- other condition waits for a reviewer.
  pub condition_rows-review :
      (known_params : List Text) (threshold : F) (reg : ℕ) (m : MappingOutput F)
      → map
          (λ row. row.review_status)
          (condition_rows threshold reg
            (all_flags known_params threshold m)
            0
            m.applicability_conditions)
        ≡ map (review_of known_params threshold) m.applicability_conditions
  condition_rows-review known_params threshold reg m =
      condition_rows-status known_params threshold reg 0 (all_flags known_params threshold m)
        m.applicability_conditions (λ i le. all_flags-condition known_params threshold m i)
