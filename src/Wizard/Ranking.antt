-- ===== src/Wizard/Ranking.antt =====
-- `query` of engine/wizard_matcher.py: which regulations come back, in which order, and when.
use mathlib.Core.List.{Perm}
use mathlib.Core.List.Perm
use compliance_wizard_engine.Prelude.{
  ℕ, ◌≡◌, ◌↔◌, refl, subst, Bool, true, false, inl, inr, none, some, Option-cases, List, [], ◌∷◌,
  Text, any, keep, is_empty, All, find, arith, map, sort, sort-perm, sort-IsSorted, All-sort,
  IsSorted, Floats, IsOrdered, clamp, clamp_bounds, if◌then◌else◌, ◌==◌, nat_eq, sum_from, length,
}
use compliance_wizard_engine.Store.{Regulation, Condition, Edge, HsMap}
use compliance_wizard_engine.Schemas.{in_unit}
use compliance_wizard_engine.Hs.{Candidate, find_regulations_by_hs}
use compliance_wizard_engine.Wizard.Evaluation.{Attributes}
use compliance_wizard_engine.Wizard.Results.{
  possibly_applies, WizardResult, decide_status, all_schemas, missing_attributes,
  evaluate_regulation, evaluate_all, ranks_before, query, tempered_confidence, confidences,
}

abbrev pub is_stored : List Regulation → ℕ → Bool
is_stored regs id = any (λ r. r.id == id) regs

find-none :
    (regs : List Regulation) (id : ℕ)
    → find (λ r. r.id == id) regs ≡ none
    → is_stored regs id ≡ false
find-none [] id h = refl
find-none (r ∷ regs) id h = ground (arith, find-none regs id)

find-some :
    (regs : List Regulation) (id : ℕ) (reg : Regulation)
    → find (λ r. r.id == id) regs ≡ some reg
    → (reg.id ≡ id) × (is_stored regs id ≡ true)
find-some [] id reg h = cc
find-some (r ∷ regs) id reg h = ground (arith, find-some regs id reg)

module _ {F : Type 0} ⦃fl : Floats F⦄ where
  -- The regulations that a query has to answer for: those of the candidates that are stored.
  abbrev pub candidate_ids : List Regulation → List (Candidate F) → List ℕ
  candidate_ids regs cands = keep (is_stored regs) (map (λ c. c.regulation_id) cands)

  abbrev pub result_ids : List (WizardResult F) → List ℕ
  result_ids results = map (λ r. r.regulation_id) results

  abbrev conditions_of : List (Condition F) → Regulation → List (Condition F)
  conditions_of conds reg = keep (λ c. c.regulation_id == reg.id) conds

  evaluate_regulation-id :
      (regs : List Regulation) (edges : List (Edge F)) (reg : Regulation)
      (conds : List (Condition F)) (cand : Candidate F) (attrs : Attributes F) (r : WizardResult F)
      → evaluate_regulation regs edges reg conds cand attrs ≡ some r
      → r.regulation_id ≡ reg.id
  unfolding evaluate_regulation
  evaluate_regulation-id regs edges reg conds cand attrs r h =
      elim (Option-cases (all_schemas (decide_status attrs conds).1)) [
        | inl e ↦ ground arith
        | inr e ↦ ground arith
      ]

  ranks_total :
      IsOrdered fl → (a b : WizardResult F) → ranks_before a b ≡ false → ranks_before b a ≡ true
  ranks_total o a b h =
      ground (arith, o.fle_false b.confidence a.confidence, o.flt_fle a.confidence b.confidence)

  ranks_trans :
      IsOrdered fl
      → (a b c : WizardResult F) → ranks_before a b ≡ true
      → ranks_before b c ≡ true
      → ranks_before a c ≡ true
  ranks_trans o a b c h k = ground (arith, o.fle_trans c.confidence b.confidence a.confidence)

  tempered_confidence-in_unit :
      IsOrdered fl
      → (stored : F) (conds : List (Condition F))
      → in_unit (tempered_confidence stored conds) ≡ true
  unfolding tempered_confidence
  tempered_confidence-in_unit o stored conds =
      let values = confidences conds in
      let raw =
        if is_empty values
        then stored
        else fl.mul stored (fl.div_count (sum_from (fl.milli 0) values) (length values)) in
      let lo = fl.milli 0 in
      let hi = fl.milli 1000 in
      let bounds = clamp_bounds o lo hi raw (o.milli_mono 0 1000 (omega arith)) in
      ground (
        arith,
        bounds,
        o.round_mono lo (clamp lo hi raw) bounds.0,
        o.round_mono (clamp lo hi raw) hi bounds.1,
        o.round_milli 0,
        o.round_milli 1000,
      )

  possibly_applies-missing :
      (attrs : Attributes F) (conds : List (Condition F))
      → (decide_status attrs conds).0 ≡ possibly_applies
      → is_empty (missing_attributes attrs conds) ≡ false
  unfolding decide_status
  possibly_applies-missing attrs conds h = ground arith

  -- A confidence in [0, 1], and missing attributes exactly where the status asks for them.
  abbrev pub IsWellFormed : WizardResult F → Type 0
  IsWellFormed r =
      (in_unit r.confidence ≡ true)
      × ((is_empty r.missing_attributes ≡ false) ↔ (r.applicability_status ≡ possibly_applies))

  module _ (regs : List Regulation) (edges : List (Edge F)) (conds : List (Condition F))
      (attrs : Attributes F) where
    evaluate_all_ids :
        (cands : List (Candidate F)) (results : List (WizardResult F))
        → evaluate_all regs edges conds attrs cands ≡ some results
        → result_ids results ≡ candidate_ids regs cands
    unfolding evaluate_all
    evaluate_all_ids [] results h = ground arith
    evaluate_all_ids (cand ∷ cands) results h =
        elim (Option-cases (find (λ r. r.id == cand.regulation_id) regs)) [
          | inl e ↦
              ground (arith, find-none regs cand.regulation_id e, evaluate_all_ids cands results)
          | inr (reg, e) ↦
              elim (Option-cases
                (evaluate_regulation regs edges reg (conditions_of conds reg) cand attrs)) [
                  | inl d ↦ ground arith
                  | inr (r, d) ↦ elim (Option-cases (evaluate_all regs edges conds attrs cands)) [
                    | inl f ↦ ground arith
                    | inr (rs, f) ↦ ground (
                      arith,
                      find-some regs cand.regulation_id reg e,
                      evaluate_regulation-id regs edges reg (conditions_of conds reg) cand attrs r
                          d,
                      evaluate_all_ids cands rs f,
                    )
                  ]
                ]
        ]

    -- What holds of the result for each regulation holds of all results.
    evaluate_all-All :
        (P : WizardResult F → Type 0)
        → ((reg : Regulation) (cs : List (Condition F)) (cand : Candidate F) (r : WizardResult F)
            → evaluate_regulation regs edges reg cs cand attrs ≡ some r
            → P r)
        → (cands : List (Candidate F)) (results : List (WizardResult F))
        → evaluate_all regs edges conds attrs cands ≡ some results
        → All P results
    unfolding evaluate_all
    evaluate_all-All P each [] results h = let q : [] ≡ results = ground arith in subst (All P) q tt
    evaluate_all-All P each (cand ∷ cands) results h =
        elim (Option-cases (find (λ r. r.id == cand.regulation_id) regs)) [
          | inl e ↦ evaluate_all-All P each cands results (ground arith)
          | inr (reg, e) ↦
              let cs = conditions_of conds reg in
              elim (Option-cases (evaluate_regulation regs edges reg cs cand attrs)) [
                | inl d ↦ absurd (ground arith)
                | inr (r, d) ↦ elim (Option-cases (evaluate_all regs edges conds attrs cands)) [
                  | inl f ↦ absurd (ground arith)
                  | inr (rs, f) ↦
                      let q : r ∷ rs ≡ results = ground arith in
                      subst (All P) q (each reg cs cand r d, evaluate_all-All P each cands rs f)
                ]
              ]
        ]

    -- The results of a query are those of the stored candidates, each as often as it is a
    -- candidate: no regulation is dropped, whatever its status, and none is made up.
    pub query-perm :
        (rows : List (HsMap F)) (hs_code : Text) (results : List (WizardResult F))
        → query regs edges conds rows hs_code attrs ≡ some results
        → Perm (result_ids results) (candidate_ids regs (find_regulations_by_hs hs_code rows))
    unfolding query
    query-perm rows hs_code results h =
        elim (Option-cases
          (evaluate_all regs edges conds attrs (find_regulations_by_hs hs_code rows))) [
            | inl e ↦ absurd (ground arith)
            | inr (rs, e) ↦
                let sorted : sort ranks_before rs ≡ results = ground arith in
                let ids = evaluate_all_ids (find_regulations_by_hs hs_code rows) rs e in
                rw (← sorted, ← ids)
                  (Perm.map (λ (r : WizardResult F). r.regulation_id) (sort-perm ranks_before rs))
          ]

    -- On floats without NaN the results stand in the order of their status, APPLIES first and
    -- EXCLUDED last, and for one status by falling confidence.
    pub query-IsSorted :
        IsOrdered fl
        → (rows : List (HsMap F)) (hs_code : Text) (results : List (WizardResult F))
        → query regs edges conds rows hs_code attrs ≡ some results
        → IsSorted ranks_before results
    unfolding query
    query-IsSorted o rows hs_code results h =
        elim (Option-cases
          (evaluate_all regs edges conds attrs (find_regulations_by_hs hs_code rows))) [
            | inl e ↦ absurd (ground arith)
            | inr (rs, e) ↦
                let sorted : sort ranks_before rs ≡ results = ground arith in
                rw (← sorted) (sort-IsSorted ranks_before (ranks_total o) (ranks_trans o) rs)
          ]

    evaluate_regulation-IsWellFormed :
        IsOrdered fl
        → (reg : Regulation) (cs : List (Condition F)) (cand : Candidate F) (r : WizardResult F)
        → evaluate_regulation regs edges reg cs cand attrs ≡ some r
        → IsWellFormed r
    unfolding evaluate_regulation
    evaluate_regulation-IsWellFormed o reg cs cand r h =
        elim (Option-cases (all_schemas (decide_status attrs cs).1)) [
          | inl e ↦ absurd (ground arith)
          | inr (ss, e) ↦ (
            ground (arith, tempered_confidence-in_unit o cand.confidence cs),
            (
              λ k. ground (arith, possibly_applies-missing attrs cs),
              λ k. ground (arith, possibly_applies-missing attrs cs),
            ),
          )
        ]

    -- On floats without NaN every result of a query has a confidence in [0, 1], and lists missing
    -- attributes exactly if its status is POSSIBLY_APPLIES.
    pub query-IsWellFormed :
        IsOrdered fl
        → (rows : List (HsMap F)) (hs_code : Text) (results : List (WizardResult F))
        → query regs edges conds rows hs_code attrs ≡ some results
        → All IsWellFormed results
    unfolding query
    query-IsWellFormed o rows hs_code results h =
        elim (Option-cases
          (evaluate_all regs edges conds attrs (find_regulations_by_hs hs_code rows))) [
            | inl e ↦ absurd (ground arith)
            | inr (rs, e) ↦
                let sorted : sort ranks_before rs ≡ results = ground arith in
                rw (← sorted) (
                  All-sort ranks_before IsWellFormed rs (
                    evaluate_all-All IsWellFormed (evaluate_regulation-IsWellFormed o)
                      (find_regulations_by_hs hs_code rows) rs e))
          ]
