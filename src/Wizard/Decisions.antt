-- ===== src/Wizard/Decisions.antt =====
-- What decides the status of a regulation (`_evaluate_regulation` of engine/wizard_matcher.py).
use compliance_wizard_engine.Prelude.{
  ◌≡◌, ◌≢◌, ◌↔◌, ◌⊎◌, refl, true, false, ◌||◌, inl, inr, Bool-cases, none, some, Option-cases, List,
  [], ◌∷◌, Text, any, is_empty, All, Any, arith, sort, insert, dedup, text_eq, text_leb, Floats,
}
use compliance_wizard_engine.Vocabulary.{inclusion, exclusion}
use compliance_wizard_engine.Store.{Condition}
use compliance_wizard_engine.Wizard.Evaluation.{
  Attributes, met, unmet, unstructured, raised, missing, attribute, evaluate, compare_number,
}
use compliance_wizard_engine.Wizard.Results.{
  applies, excluded, decide_status, triggered_exclusion, failed_inclusion, not_structured,
  missing_params,
}

is_empty-dedup : (ts : List Text) → is_empty (dedup ts) ≡ is_empty ts
unfolding dedup
is_empty-dedup [] = refl
is_empty-dedup (t ∷ []) = refl
is_empty-dedup (t ∷ u ∷ ts) = ground (arith, is_empty-dedup (u ∷ ts))

is_empty-insert : (t : Text) (ts : List Text) → is_empty (insert text_leb t ts) ≡ false
unfolding insert
is_empty-insert t [] = refl
is_empty-insert t (u ∷ ts) = ground arith

is_empty-sort : (ts : List Text) → is_empty (sort text_leb ts) ≡ is_empty ts
unfolding sort
is_empty-sort [] = refl
is_empty-sort (t ∷ ts) = is_empty-insert t (sort text_leb ts)

-- The condition's parameter, if it has one, is no empty text.
abbrev pub IsNamed : {F : Type 0} → Condition F → Type 0
IsNamed c = c.parameter_name ≢ some []

module _ {F : Type 0} ⦃fl : Floats F⦄ (attrs : Attributes F) where
  -- The condition speaks against the regulation: an exclusion that holds, or an inclusion that fails.
  abbrev pub Blocks : Condition F → Type 0
  Blocks c =
      ((c.condition_type ≡ exclusion) × (evaluate attrs c ≡ met))
      ⊎ ((c.condition_type ≡ inclusion) × (evaluate attrs c ≡ unmet))

  -- The condition speaks for it: an inclusion that holds, or an exclusion that fails.
  abbrev pub Supports : Condition F → Type 0
  Supports c =
      ((c.condition_type ≡ inclusion) × (evaluate attrs c ≡ met))
      ⊎ ((c.condition_type ≡ exclusion) × (evaluate attrs c ≡ unmet))

  blocking :
      (conds : List (Condition F))
      → ((any (triggered_exclusion attrs) conds || any (failed_inclusion attrs) conds) ≡ true)
        ↔ Any Blocks conds
  blocking [] = (λ h. cc, λ h. absurd h)
  blocking (c ∷ conds) =
      (λ h. ground (arith, (blocking conds).0), λ h. ground (arith, (blocking conds).1))

  excluded_only :
      (c : Condition F) (conds : List (Condition F))
      → (decide_status attrs (c ∷ conds)).0 ≡ excluded
      → (any (triggered_exclusion attrs) (c ∷ conds) || any (failed_inclusion attrs) (c ∷ conds))
        ≡ true
  unfolding decide_status
  excluded_only c conds h =
      elim (Bool-cases
        (any (triggered_exclusion attrs) (c ∷ conds) || any (failed_inclusion attrs) (c ∷ conds))) [
          | inl e ↦ e
          | inr e ↦ ground arith
        ]

  -- Once its conditions are evaluated, a regulation is EXCLUDED exactly when one of them is an
  -- exclusion that holds of the product or an inclusion that fails for it.
  pub excluded_iff :
      (conds : List (Condition F)) → ((decide_status attrs conds).0 ≡ excluded) ↔ Any Blocks conds
  unfolding decide_status
  excluded_iff [] = (λ h. cc, λ h. absurd h)
  excluded_iff (c ∷ conds) = (
    λ h. (blocking (c ∷ conds)).0 (excluded_only c conds h),
    λ h. rw ((blocking (c ∷ conds)).1 h, decide_status),
  )

  -- Evaluating the condition raises nothing.
  abbrev pub IsEvaluated : Condition F → Type 0
  IsEvaluated c = evaluate attrs c ≢ raised

  evaluate-ne-missing_nil : (c : Condition F) → IsNamed c → evaluate attrs c ≢ missing []
  unfolding evaluate compare_number
  evaluate-ne-missing_nil c named h = ground arith

  supporting :
      (conds : List (Condition F))
      → All IsNamed conds
      → All IsEvaluated conds
      → ((any (triggered_exclusion attrs) conds ≡ false)
          × (any (failed_inclusion attrs) conds ≡ false)
          × (any (not_structured attrs) conds ≡ false)
          × (is_empty (missing_params attrs conds) ≡ true))
        ↔ All Supports conds
  unfolding missing_params
  supporting [] named evaluated = (λ h. tt, λ h. (refl, refl, refl, refl))
  supporting (c ∷ conds) named evaluated = (
    λ h. ground (
      arith,
      (supporting conds named.1 evaluated.1).0,
      evaluated.0,
      evaluate-ne-missing_nil c named.0,
    ),
    λ h. ground (
      arith,
      (supporting conds named.1 evaluated.1).1,
      evaluated.0,
      evaluate-ne-missing_nil c named.0,
    ),
  )

  Supports-IsEvaluated : (conds : List (Condition F)) → All Supports conds → All IsEvaluated conds
  Supports-IsEvaluated [] h = tt
  Supports-IsEvaluated (c ∷ conds) h = ((λ e. ground (arith, h.0)), Supports-IsEvaluated conds h.1)

  -- Where every parameter has a name, the evaluations raise nothing and the regulation APPLIES exactly
  -- when it has conditions and each of them is an inclusion that holds of the product or an exclusion
  -- that fails for it.
  pub applies_iff :
      (conds : List (Condition F))
      → All IsNamed conds
      → (((decide_status attrs conds).0 ≡ applies) × All IsEvaluated conds)
        ↔ ((is_empty conds ≡ false) × All Supports conds)
  unfolding decide_status
  applies_iff conds named = (
    λ h. ground (
      arith,
      h.0,
      (supporting conds named h.1).0,
      is_empty-sort (dedup (missing_params attrs conds)),
      is_empty-dedup (missing_params attrs conds),
    ),
    λ h.
        let evaluated = Supports-IsEvaluated conds h.1 in
        (
          ground (
            arith,
            h.0,
            (supporting conds named evaluated).1 h.1,
            is_empty-sort (dedup (missing_params attrs conds)),
            is_empty-dedup (missing_params attrs conds),
          ),
          evaluated,
        ),
  )

  -- Nothing the query says concerns the condition.
  abbrev pub IsSilentOn : Condition F → Type 0
  IsSilentOn c = (p : Text) → c.parameter_name ≡ some p → attribute p attrs ≡ none

  evaluate_silent :
      (c : Condition F)
      → IsSilentOn c
      → (evaluate attrs c ≡ unstructured) ⊎ ((p : Text) × (evaluate attrs c ≡ missing p))
  unfolding evaluate
  evaluate_silent c silent = elim (Option-cases c.parameter_name) [
    | inl e ↦ inl (ground arith)
    | inr e ↦ elim (Bool-cases c.is_structured) [
      | inl b ↦ inr (e.0, ground (arith, silent e.0 e.1))
      | inr b ↦ inl (ground arith)
    ]
  ]

  silent-IsEvaluated : (conds : List (Condition F)) → All IsSilentOn conds → All IsEvaluated conds
  silent-IsEvaluated [] silent = tt
  silent-IsEvaluated (c ∷ conds) silent =
      ((λ e. ground (arith, evaluate_silent c silent.0)), silent-IsEvaluated conds silent.1)

  not_blocking : (conds : List (Condition F)) → All IsSilentOn conds → ¬ (Any Blocks conds)
  not_blocking [] silent h = h
  not_blocking (c ∷ conds) silent (inl b) = ground (arith, evaluate_silent c silent.0)
  not_blocking (c ∷ conds) silent (inr b) = not_blocking conds silent.1 b

  not_supporting :
      (conds : List (Condition F))
      → All IsSilentOn conds
      → ¬ ((is_empty conds ≡ false) × All Supports conds)
  not_supporting [] silent h = cc h.0
  not_supporting (c ∷ conds) silent h = ground (arith, evaluate_silent c silent.0, h.1.0)

  -- Where every parameter has a name, conditions on attributes that the query does not give never
  -- exclude a regulation, and never make it apply: it comes back as POSSIBLY_APPLIES or UNCERTAIN.
  pub silence_decides_nothing :
      (conds : List (Condition F))
      → All IsNamed conds
      → All IsSilentOn conds
      → ((decide_status attrs conds).0 ≢ excluded) × ((decide_status attrs conds).0 ≢ applies)
  silence_decides_nothing conds named silent = (
    λ e. not_blocking conds silent ((excluded_iff conds).0 e),
    λ e.
        not_supporting conds silent
          ((applies_iff conds named).0 (e, silent-IsEvaluated conds silent)),
  )
