-- ===== src/Mapping/Evaluated.antt =====
-- The Mapping Agent and the wizard agree: a clause that `_structure` made numeric, stored and then
-- evaluated by `_evaluate`, holds of a product exactly when the clause's numbers and operator say so.
use compliance_wizard_engine.Prelude.{
  ℕ, ◌≡◌, ◌≢◌, ◌↔◌, inl, inr, sym, subst, Bool, true, false, ◌&&◌, none, some, Option-cases, List,
  [], ◌∷◌, Text, text, is_nil, if◌then◌else◌, arith, Floats, IsOrdered, fmin, fmax, Any, ◌==◌,
  text_eq,
}
use compliance_wizard_engine.Vocabulary.{AttributeValueType, range}
use compliance_wizard_engine.Schemas.{RawApplicabilityCondition, ApplicabilityCondition, ReviewFlag}
use compliance_wizard_engine.Mapping.Normalize.{norm_param, norm_operator}
use compliance_wizard_engine.Mapping.Structure.{
  Bounds, least, greatest, bounds_of, numbers_of, unstructured_of, typed_condition, resolved_type,
  structure,
}
use compliance_wizard_engine.Mapping.Structuring.{structure-typed}
use compliance_wizard_engine.Pipeline.Persist.{condition_row}
use compliance_wizard_engine.Wizard.Evaluation.{
  Attributes, Value, met, attribute, to_float, compare_number, compare_value, evaluate,
}

module _ {F : Type 0} ⦃fl : Floats F⦄ where
  -- The number lies between two of the numbers, or is one of them.
  abbrev pub InSpan : List F → F → Type 0
  InSpan xs un = Any (λ x. fl.fle x un ≡ true) xs × Any (λ x. fl.fle un x ≡ true) xs

  -- What a lone number says under an operator; "between" and "==" ask for the number itself.
  abbrev pub says_one : Text → F → F → Bool
  says_one op x un =
      if op == text "between"
      then fl.fle x un && fl.fle un x
      else if op == text ">"
      then fl.flt x un
      else if op == text ">="
      then fl.fle x un
      else if op == text "<"
      then fl.flt un x
      else if op == text "<="
      then fl.fle un x
      else fl.fle x un && fl.fle un x

  -- What a clause with an operator and numbers says of a number.
  abbrev pub Says : Text → List F → F → Type 0
  Says op (x ∷ []) un = says_one op x un ≡ true
  Says op xs un = InSpan xs un

  module _ (o : IsOrdered fl) where
    least-le :
        (un x : F) (xs : List F)
        → (fl.fle (least x xs) un ≡ true) ↔ Any (λ y. fl.fle y un ≡ true) (x ∷ xs)
    unfolding least
    least-le un x [] = (λ h. inl h, λ h. ground arith)
    least-le un x (y ∷ ys) = (
      λ h. ground (
        arith,
        (least-le un (fmin x y) ys).0,
        o.fle_trans x y un,
        o.fle_trans y x un,
        o.flt_fle y x,
        o.flt_false y x,
      ),
      λ h. ground (
        arith,
        (least-le un (fmin x y) ys).1,
        o.fle_trans x y un,
        o.fle_trans y x un,
        o.flt_fle y x,
        o.flt_false y x,
      ),
    )

    le-greatest :
        (un x : F) (xs : List F)
        → (fl.fle un (greatest x xs) ≡ true) ↔ Any (λ y. fl.fle un y ≡ true) (x ∷ xs)
    unfolding greatest
    le-greatest un x [] = (λ h. inl h, λ h. ground arith)
    le-greatest un x (y ∷ ys) = (
      λ h. ground (
        arith,
        (le-greatest un (fmax x y) ys).0,
        o.fle_trans un x y,
        o.fle_trans un y x,
        o.flt_fle x y,
        o.flt_false x y,
      ),
      λ h. ground (
        arith,
        (le-greatest un (fmax x y) ys).1,
        o.fle_trans un x y,
        o.fle_trans un y x,
        o.flt_fle x y,
        o.flt_false x y,
      ),
    )

    bounds_of-Says :
        (op : Text) (xs : List F) (b : Bounds F) (un : F)
        → bounds_of op xs ≡ some b
        → (compare_number b.operator b.value_min b.value_max un ≡ met) ↔ Says op xs un
    unfolding bounds_of compare_number
    bounds_of-Says op [] b un h = absurd (ground arith)
    bounds_of-Says op (x ∷ []) b un h = (λ k. ground arith, λ k. ground arith)
    bounds_of-Says op (x ∷ y ∷ ys) b un h = (
      λ k. ground (arith, (least-le un x (y ∷ ys)).0, (le-greatest un x (y ∷ ys)).0),
      λ k. ground (arith, (least-le un x (y ∷ ys)).1, (le-greatest un x (y ∷ ys)).1),
    )

    not_bounded :
        (raw : RawApplicabilityCondition F) (c : ApplicabilityCondition F)
        → c ≡ typed_condition range raw
        → bounds_of {F = F} (norm_operator raw.operator) (numbers_of ⦃fl = fl⦄ raw.value) ≡ none
        → c.is_structured ≢ true
    unfolding typed_condition unstructured_of
    not_bounded raw c shape e s = ground arith

    evaluate_bounds :
        (raw : RawApplicabilityCondition F) (b : Bounds F) (threshold : F) (reg i : ℕ)
        (flags : List ReviewFlag) (attrs : Attributes F) (u : Value F) (un : F)
        → bounds_of (norm_operator raw.operator) (numbers_of raw.value) ≡ some b
        → is_nil (norm_param raw.parameter_name) ≡ false
        → attribute (norm_param raw.parameter_name) attrs ≡ some u
        → to_float u ≡ some (some un)
        → evaluate attrs (condition_row threshold reg flags i (typed_condition range raw))
          ≡ compare_number b.operator b.value_min b.value_max un
    unfolding typed_condition unstructured_of condition_row evaluate compare_value
    evaluate_bounds raw b threshold reg i flags attrs u un e named given number = ground arith

    -- For a clause that was structured as a range, over a parameter that has a name: the stored
    -- condition holds of a product whose attribute is a number exactly when the clause says so. With
    -- two numbers or more the attribute has to lie between two of them, with one its operator counts.
    pub range_evaluates_iff :
        (types : List (Text × AttributeValueType)) (raw : RawApplicabilityCondition F)
        (c : ApplicabilityCondition F) (threshold : F) (reg i : ℕ) (flags : List ReviewFlag)
        (attrs : Attributes F) (u : Value F) (un : F)
        → structure types raw ≡ some c
        → resolved_type types raw ≡ range
        → c.is_structured ≡ true
        → is_nil (norm_param raw.parameter_name) ≡ false
        → attribute (norm_param raw.parameter_name) attrs ≡ some u
        → to_float u ≡ some (some un)
        → (evaluate attrs (condition_row threshold reg flags i c) ≡ met)
          ↔ Says (norm_operator raw.operator) (numbers_of raw.value) un
    range_evaluates_iff types raw c threshold reg i flags attrs u un h t s named given number =
        let shape : c ≡ typed_condition range raw =
          subst (λ k. c ≡ typed_condition k raw) t (structure-typed types raw c h) in
        elim (Option-cases
          (bounds_of (norm_operator raw.operator) (numbers_of ⦃fl = fl⦄ raw.value))) [
            | inl e ↦ absurd (not_bounded raw c shape e s)
            | inr (b, e) ↦
                let says =
                  bounds_of-Says (norm_operator raw.operator) (numbers_of raw.value) b un e in
                let same =
                  evaluate_bounds raw b threshold reg i flags attrs u un e named given number in
                subst
                  (λ d.
                    (evaluate attrs (condition_row threshold reg flags i d) ≡ met)
                    ↔ Says (norm_operator raw.operator) (numbers_of raw.value) un)
                  (sym shape) (rw same says)
          ]
