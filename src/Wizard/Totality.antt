-- ===== src/Wizard/Totality.antt =====
-- `query` of engine/wizard_matcher.py returns: no stored condition makes `_to_schema` raise.
use compliance_wizard_engine.Prelude.{
  ◌≡◌, ◌≢◌, ◌⊎◌, refl, subst, Option, some, Bool-cases, text_eq, true, false, ◌||◌, not, inl, inr,
  none, Option-cases, List, [], ◌∷◌, Text, any, keep, is_empty, All, All-keep, All-append, if_ind,
  find, arith, or_else, Floats, ◌==◌, nat_eq,
}
use compliance_wizard_engine.Store.{Regulation, Condition, Edge, HsMap}
use compliance_wizard_engine.Schemas.{is_blank, in_unit}
use compliance_wizard_engine.Vocabulary.{Operator}
use compliance_wizard_engine.Hs.{Candidate, find_regulations_by_hs}
use compliance_wizard_engine.Wizard.Evaluation.{
  Attributes, Value, raised, attribute, evaluate, compare_number, compare_value, to_float,
}
use compliance_wizard_engine.Wizard.Results.{
  Status, decide_status, all_schemas, evaluate_regulation, evaluate_all, query, triggered_exclusion,
  failed_inclusion, not_structured, satisfied_inclusion, missing_attributes, evaluation_raises,
}

module _ {F : Type 0} ⦃fl : Floats F⦄ where
  -- The check constraint on the confidence, and the raw text that the pipeline always stores.
  abbrev pub IsStorable : Condition F → Type 0
  IsStorable c =
      (in_unit (or_else c.confidence (fl.milli 0)) ≡ true)
      × ((c.is_structured ≡ true) ⊎ (is_blank c.raw_text ≡ false))

  all_schemas_total : (conds : List (Condition F)) → All IsStorable conds → all_schemas conds ≢ none
  unfolding all_schemas
  all_schemas_total [] h = λ e. cc
  all_schemas_total (c ∷ conds) h = ground (arith, all_schemas_total conds h.1)

  decide_status-All :
      (P : Condition F → Type 0) (attrs : Attributes F) (conds : List (Condition F))
      → All P conds
      → All P (decide_status attrs conds).1
  unfolding decide_status
  decide_status-All P attrs conds h =
      let Q = λ (r : Status × List (Condition F)). All P r.1 in
      if_ind Q (is_empty conds) tt (
        if_ind Q (any (triggered_exclusion attrs) conds || any (failed_inclusion attrs) conds)
          (All-append P (keep (triggered_exclusion attrs) conds)
            (keep (failed_inclusion attrs) conds) (All-keep P _ conds h) (All-keep P _ conds h))
          (if_ind Q (any (not_structured attrs) conds) (All-keep P _ conds h) (
            if_ind Q (not (is_empty (missing_attributes attrs conds))) (All-keep P _ conds h) (
              if_ind (All P) (is_empty (keep (satisfied_inclusion attrs) conds)) h
                (All-keep P _ conds h)))))

  -- No integer among the attributes is too large for a float.
  abbrev pub Fits : Text × Value F → Type 0
  Fits a = to_float a.1 ≢ none

  attribute-Fits :
      (p : Text) (attrs : Attributes F) (u : Value F)
      → All Fits attrs
      → attribute p attrs ≡ some u
      → to_float u ≢ none
  unfolding attribute
  attribute-Fits p [] u h e = absurd (ground arith)
  attribute-Fits p ((q, v) ∷ attrs) u h e = elim (Bool-cases (q == p)) [
    | inl b ↦ let same : v ≡ u = ground arith in subst (λ w. to_float w ≢ none) same h.0
    | inr b ↦ attribute-Fits p attrs u h.1 (ground arith)
  ]

  compare_number-raised :
      (op : Option Operator) (vmin vmax : Option F) (un : F)
      → compare_number op vmin vmax un ≢ raised
  unfolding compare_number
  compare_number-raised op vmin vmax un e = ground arith

  evaluate-raised :
      (attrs : Attributes F) (c : Condition F) → All Fits attrs → evaluate attrs c ≢ raised
  unfolding evaluate compare_value
  evaluate-raised attrs c h e = elim (Option-cases c.parameter_name) [
    | inl n ↦ ground arith
    | inr (p, n) ↦ elim (Option-cases (attribute p attrs)) [
      | inl a ↦ ground arith
      | inr (u, a) ↦ ground (
        arith,
        attribute-Fits p attrs u h a,
        compare_number-raised c.operator c.value_min c.value_max,
      )
    ]
  ]

  evaluation_raises-any :
      (attrs : Attributes F) (conds : List (Condition F))
      → All Fits attrs
      → any (evaluation_raises attrs) conds ≡ false
  evaluation_raises-any attrs [] h = refl
  evaluation_raises-any attrs (c ∷ conds) h =
      ground (arith, evaluate-raised attrs c h, evaluation_raises-any attrs conds h)

  evaluate_regulation_total :
      (regs : List Regulation) (edges : List (Edge F)) (reg : Regulation)
      (conds : List (Condition F)) (cand : Candidate F) (attrs : Attributes F)
      → All IsStorable conds
      → All Fits attrs
      → evaluate_regulation regs edges reg conds cand attrs ≢ none
  unfolding evaluate_regulation
  evaluate_regulation_total regs edges reg conds cand attrs h fits = ground (
    arith,
    evaluation_raises-any attrs conds fits,
    all_schemas_total (decide_status attrs conds).1 (decide_status-All IsStorable attrs conds h),
  )

  evaluate_all_total :
      (regs : List Regulation) (edges : List (Edge F)) (conds : List (Condition F))
      (attrs : Attributes F)
      → All IsStorable conds
      → All Fits attrs
      → (cands : List (Candidate F)) → evaluate_all regs edges conds attrs cands ≢ none
  unfolding evaluate_all
  evaluate_all_total regs edges conds attrs h fits [] = λ e. cc
  evaluate_all_total regs edges conds attrs h fits (cand ∷ cands) =
      elim (Option-cases (find (λ r. r.id == cand.regulation_id) regs)) [
        | inl e ↦ ground (arith, evaluate_all_total regs edges conds attrs h fits cands)
        | inr (reg, e) ↦ ground (
          arith,
          evaluate_all_total regs edges conds attrs h fits cands,
          evaluate_regulation_total regs edges reg (keep (λ c. c.regulation_id == reg.id) conds)
              cand attrs (All-keep IsStorable _ conds h) fits,
        )
      ]

  -- A query over conditions that satisfy the constraints of the table, by attributes that fit a
  -- float, returns its results.
  pub query_total :
      (regs : List Regulation) (edges : List (Edge F)) (conds : List (Condition F))
      (rows : List (HsMap F)) (hs_code : Text) (attrs : Attributes F)
      → All IsStorable conds
      → All Fits attrs
      → query regs edges conds rows hs_code attrs ≢ none
  unfolding query
  query_total regs edges conds rows hs_code attrs h fits = ground (
    arith,
    evaluate_all_total regs edges conds attrs h fits (find_regulations_by_hs hs_code rows),
  )
