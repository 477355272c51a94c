-- ===== src/Wizard/Results.antt =====
-- engine/wizard_matcher.py, `query` and `_evaluate_regulation`: the status, the evidence and the order
-- of the results.
use compliance_wizard_engine.Prelude.{
  ℕ, Bool, true, false, ◌&&◌, ◌||◌, not, Option, none, some, List, [], ◌∷◌, ◌++◌, Text, text,
  is_nil, length, any, keep, find, is_empty, ltb, ◌==◌, nat_eq, text_eq, if◌then◌else◌, or_else,
  Floats, sum_from, clamp, sort, text_leb, dedup, opt_text_or,
}
use compliance_wizard_engine.Vocabulary.{
  ConditionType, inclusion, exclusion, superseded_by, relation_beq, MatchType, exact, fuzzy, manual,
  inferred,
}
use compliance_wizard_engine.Store.{Regulation, Condition, Edge, HsMap}
use compliance_wizard_engine.Schemas.{ApplicabilityCondition, condition_of}
use compliance_wizard_engine.Hs.{Candidate, find_regulations_by_hs}
use compliance_wizard_engine.Wizard.Evaluation.{
  Attributes, Outcome, met, unmet, unstructured, raised, missing, evaluate,
}

pub data Status : Type 0 where
  applies possibly_applies uncertain excluded : Status

-- _STATUS_RANK
unfoldable pub status_rank : Status → ℕ
status_rank applies = 0
status_rank possibly_applies = 1
status_rank uncertain = 2
status_rank excluded = 3

pub record WizardResult (F : Type 0) : Type 0 where
  pub regulation_id : ℕ
  pub regulation_title : Text
  pub regulation_summary : Option Text
  pub jurisdiction : Text
  pub applicability_status : Status
  pub matched_conditions : List (ApplicabilityCondition F)
  pub missing_attributes : List Text
  pub evidence_references : List Text
  pub confidence : F
  pub relationship_notes : Option Text

-- `str(e)` of a MatchType
unfoldable pub match_text : MatchType → Text
match_text exact = text "exact"
match_text fuzzy = text "fuzzy"
match_text manual = text "manual"
match_text inferred = text "inferred"

abbrev pub is_met : Outcome → Bool
is_met met = true
is_met _ = false

abbrev pub is_unmet : Outcome → Bool
is_unmet unmet = true
is_unmet _ = false

abbrev pub is_unstructured : Outcome → Bool
is_unstructured unstructured = true
is_unstructured _ = false

abbrev pub is_raised : Outcome → Bool
is_raised raised = true
is_raised _ = false

abbrev pub is_exclusion : ConditionType → Bool
is_exclusion exclusion = true
is_exclusion inclusion = false

abbrev pub add_missing : Outcome → List Text → List Text
add_missing (missing p) ps = if is_nil p then ps else p ∷ ps
add_missing _ ps = ps

abbrev pub is_possibly : Status → Bool
is_possibly possibly_applies = true
is_possibly _ = false

module _ {F : Type 0} ⦃fl : Floats F⦄ where
  abbrev pub triggered_exclusion : Attributes F → Condition F → Bool
  triggered_exclusion attrs c = is_exclusion c.condition_type && is_met (evaluate attrs c)

  abbrev pub failed_inclusion : Attributes F → Condition F → Bool
  failed_inclusion attrs c = not (is_exclusion c.condition_type) && is_unmet (evaluate attrs c)

  abbrev pub satisfied_inclusion : Attributes F → Condition F → Bool
  satisfied_inclusion attrs c = not (is_exclusion c.condition_type) && is_met (evaluate attrs c)

  abbrev pub not_structured : Attributes F → Condition F → Bool
  not_structured attrs c = is_unstructured (evaluate attrs c)

  abbrev pub evaluation_raises : Attributes F → Condition F → Bool
  evaluation_raises attrs c = is_raised (evaluate attrs c)

  -- `{mp for _, (o, mp) in outcomes if o == "MISSING" and mp}`, before the set is formed
  unfoldable pub missing_params : Attributes F → List (Condition F) → List Text
  missing_params attrs [] = []
  missing_params attrs (c ∷ conds) = add_missing (evaluate attrs c) (missing_params attrs conds)

  unfoldable pub missing_attributes : Attributes F → List (Condition F) → List Text
  unfolding missing_params
  missing_attributes attrs conds = sort text_leb (dedup (missing_params attrs conds))

  -- The status and its drivers, for conditions whose evaluation has not raised.
  unfoldable pub decide_status : Attributes F → List (Condition F) → Status × List (Condition F)
  unfolding missing_attributes
  decide_status attrs conds =
      let satisfied = keep (satisfied_inclusion attrs) conds in
      if is_empty conds
      then (uncertain, [])
      else if any (triggered_exclusion attrs) conds || any (failed_inclusion attrs) conds
      then (excluded, keep (triggered_exclusion attrs) conds ++ keep (failed_inclusion attrs) conds)
      else if any (not_structured attrs) conds
      then (uncertain, keep (not_structured attrs) conds)
      else if not (is_empty (missing_attributes attrs conds))
      then (possibly_applies, satisfied)
      else (applies, if is_empty satisfied then conds else satisfied)

  -- `[c.confidence for c in conds if c.confidence is not None]`
  unfoldable pub confidences : List (Condition F) → List F
  confidences [] = []
  confidences (c ∷ conds) =
      let rest = confidences conds in elim c.confidence [ none ↦ rest | some x ↦ x ∷ rest ]

  unfoldable pub tempered_confidence : F → List (Condition F) → F
  unfolding confidences
  tempered_confidence stored conds =
      let values = confidences conds in
      let raw =
        if is_empty values
        then stored
        else fl.mul stored (fl.div_count (sum_from (fl.milli 0) values) (length values)) in
      fl.round3 (clamp (fl.milli 0) (fl.milli 1000) raw)

  -- `_relationship_note`: the first edge of type superseded_by, joined with its target.
  unfoldable pub relationship_note : ℕ → List Regulation → List (Edge F) → Option Text
  relationship_note id regs [] = none
  relationship_note id regs (e ∷ edges) =
      let rest = relationship_note id regs edges in
      if e.source_reg_id == id && relation_beq e.relation_type superseded_by
      then elim (find (λ r. r.id == e.target_reg_id) regs) [
        | none ↦ rest
        | some r ↦ some (text "superseded by " ++ r.source_id)
      ]
      else rest

  -- `_to_schema`
  unfoldable pub to_schema : Condition F → Option (ApplicabilityCondition F)
  unfolding condition_of
  to_schema c = condition_of (record {
    parameter_name = c.parameter_name;
    operator = c.operator;
    value_min = c.value_min;
    value_max = c.value_max;
    value_enum = c.value_enum;
    value_bool = c.value_bool;
    unit = c.unit;
    condition_type = c.condition_type;
    is_structured = c.is_structured;
    raw_text = c.raw_text;
    reference = or_else c.reference [];
    confidence = or_else c.confidence (fl.milli 0);
  })

  unfoldable pub all_schemas : List (Condition F) → Option (List (ApplicabilityCondition F))
  unfolding to_schema
  all_schemas [] = some []
  all_schemas (c ∷ conds) =
      let rest = all_schemas conds in
      elim (to_schema c) [
        | none ↦ none
        | some s ↦ elim rest [ none ↦ none | some ss ↦ some (s ∷ ss) ]
      ]

  -- `[c.reference for c in drivers if c.reference]`
  unfoldable pub references_of : List (Condition F) → List Text
  references_of [] = []
  references_of (c ∷ conds) =
      let rest = references_of conds in
      elim c.reference [ none ↦ rest | some r ↦ if is_nil r then rest else r ∷ rest ]

  -- `_evaluate_regulation`; None where the evaluation of a condition raises (OverflowError) or a driver
  -- is no valid schema (ValidationError)
  unfoldable pub evaluate_regulation :
      List Regulation
      → List (Edge F)
      → Regulation
      → List (Condition F)
      → Candidate F
      → Attributes F
      → Option (WizardResult F)
  unfolding all_schemas decide_status tempered_confidence relationship_note references_of
  evaluate_regulation regs edges reg conds cand attrs =
      let (status, drivers) = decide_status attrs conds in
      if any (evaluation_raises attrs) conds then none else elim (all_schemas drivers) [
        | none ↦ none
        | some matched ↦ some (record {
          regulation_id = reg.id;
          regulation_title = opt_text_or reg.title reg.source_id;
          regulation_summary = reg.summary;
          jurisdiction = opt_text_or reg.jurisdiction [];
          applicability_status = status;
          matched_conditions = matched;
          missing_attributes = if is_possibly status then missing_attributes attrs conds else [];
          evidence_references =
              (text "HS match: "
                ++ cand.matched_code
                ++ text " ("
                ++ match_text cand.match_type
                ++ text ")")
              ∷ references_of drivers;
          confidence = tempered_confidence cand.confidence conds;
          relationship_notes = relationship_note reg.id regs edges;
        })
      ]

  -- The loop of `query`, which skips a candidate whose regulation is not there.
  unfoldable pub evaluate_all :
      List Regulation
      → List (Edge F)
      → List (Condition F)
      → Attributes F
      → List (Candidate F)
      → Option (List (WizardResult F))
  evaluate_all regs edges conds attrs [] = some []
  evaluate_all regs edges conds attrs (cand ∷ cands) =
      let rest = evaluate_all regs edges conds attrs cands in
      elim (find (λ r. r.id == cand.regulation_id) regs) [
        | none ↦ rest
        | some reg ↦
            elim (evaluate_regulation regs edges reg (keep (λ c. c.regulation_id == reg.id) conds)
              cand attrs) [
                | none ↦ none
                | some r ↦ elim rest [ none ↦ none | some rs ↦ some (r ∷ rs) ]
              ]
      ]

  -- The sort key (_STATUS_RANK[status], -confidence).
  abbrev pub ranks_before : WizardResult F → WizardResult F → Bool
  ranks_before a b =
      let i = status_rank a.applicability_status in
      let j = status_rank b.applicability_status in
      ltb i j || i == j && fl.fle b.confidence a.confidence

  unfoldable pub query :
      List Regulation
      → List (Edge F)
      → List (Condition F)
      → List (HsMap F)
      → Text
      → Attributes F
      → Option (List (WizardResult F))
  query regs edges conds hs_rows hs_code attrs =
      elim (evaluate_all regs edges conds attrs (find_regulations_by_hs hs_code hs_rows)) [
        | none ↦ none
        | some results ↦ some (sort ranks_before results)
      ]
