-- ===== src/Mapping/Structuring.antt =====
-- What `_structure` guarantees: when it fails, what it keeps, and that the type decides the columns.
use compliance_wizard_engine.Prelude.{
  ◌≡◌, ◌↔◌, ◌⊎◌, inl, inr, refl, sym, subst, true, false, ◌||◌, Bool-cases, none, some,
  Option-cases, List, [], ◌∷◌, Text, is_nil, is_empty, is_some, arith, Floats, text_eq,
}
use compliance_wizard_engine.Vocabulary.{AttributeValueType, range, enum, boolean}
use compliance_wizard_engine.Schemas.{
  RawApplicabilityCondition, ApplicabilityCondition, condition_of, in_unit,
}
use compliance_wizard_engine.Mapping.Normalize.{
  lookup, norm_param, norm_operator, parse_bool, parse_enum,
}
use compliance_wizard_engine.Mapping.Structure.{
  Bounds, bounds_of, numbers_of, unstructured_of, typed_condition, value_type_of, resolved_type,
  structure, condition_type_of,
}

module _ {F : Type 0} ⦃fl : Floats F⦄ where
  condition_of-some : (c d : ApplicabilityCondition F) → condition_of c ≡ some d → c ≡ d
  unfolding condition_of
  condition_of-some c d h = ground arith

  -- What every branch leaves as it was in the clause.
  abbrev pub Keeps : RawApplicabilityCondition F → ApplicabilityCondition F → Type 0
  Keeps raw c =
      (c.raw_text ≡ some raw.raw_text)
      × (c.reference ≡ raw.reference)
      × (c.confidence ≡ raw.confidence)
      × (c.unit ≡ raw.unit)
      × (c.condition_type ≡ condition_type_of raw.condition_type)

  -- The columns that a condition of a type may fill, and has to fill when it is structured.
  abbrev pub HasType : AttributeValueType → ApplicabilityCondition F → Type 0
  HasType range c =
      (c.value_enum ≡ none)
      × (c.value_bool ≡ none)
      × ((is_some c.value_min || is_some c.value_max) ≡ c.is_structured)
  HasType enum c =
      (c.value_min ≡ none)
      × (c.value_max ≡ none)
      × (c.value_bool ≡ none)
      × (is_some c.value_enum ≡ c.is_structured)
  HasType boolean c =
      (c.value_min ≡ none)
      × (c.value_max ≡ none)
      × (c.value_enum ≡ none)
      × (is_some c.value_bool ≡ c.is_structured)

  typed_condition-Keeps :
      (t : AttributeValueType) (raw : RawApplicabilityCondition F)
      → Keeps raw (typed_condition t raw)
  unfolding typed_condition unstructured_of
  typed_condition-Keeps range raw =
      elim (Option-cases
        (bounds_of (norm_operator raw.operator) (numbers_of ⦃fl = fl⦄ raw.value))) [
          | inl e ↦ rw (e, typed_condition) (refl, refl, refl, refl, refl)
          | inr e ↦ rw (e.1, typed_condition) (refl, refl, refl, refl, refl)
        ]
  typed_condition-Keeps enum raw = elim (Bool-cases (is_empty (parse_enum raw.value))) [
    | inl e ↦ rw (e, typed_condition) (refl, refl, refl, refl, refl)
    | inr e ↦ rw e (refl, refl, refl, refl, refl)
  ]
  typed_condition-Keeps boolean raw = elim (Option-cases (parse_bool raw.value)) [
    | inl e ↦ rw (e, typed_condition) (refl, refl, refl, refl, refl)
    | inr e ↦ rw (e.1, typed_condition) (refl, refl, refl, refl, refl)
  ]

  bounds_of-bounded :
      (op : Text) (xs : List F) (b : Bounds F)
      → bounds_of op xs ≡ some b
      → (is_some b.value_min || is_some b.value_max) ≡ true
  unfolding bounds_of
  bounds_of-bounded op [] b h = ground arith
  bounds_of-bounded op (x ∷ xs) b h = ground arith

  typed_condition-HasType :
      (t : AttributeValueType) (raw : RawApplicabilityCondition F)
      → HasType t (typed_condition t raw)
  unfolding typed_condition unstructured_of
  typed_condition-HasType range raw =
      elim (Option-cases
        (bounds_of (norm_operator raw.operator) (numbers_of ⦃fl = fl⦄ raw.value))) [
          | inl e ↦ rw (e, typed_condition) (refl, refl, refl)
          | inr e ↦ rw (e.1, typed_condition) (refl, refl, bounds_of-bounded _ _ e.0 e.1)
        ]
  typed_condition-HasType enum raw = elim (Bool-cases (is_empty (parse_enum raw.value))) [
    | inl e ↦ rw (e, typed_condition) (refl, refl, refl, refl)
    | inr e ↦ rw e (refl, refl, refl, refl)
  ]
  typed_condition-HasType boolean raw = elim (Option-cases (parse_bool raw.value)) [
    | inl e ↦ rw (e, typed_condition) (refl, refl, refl, refl)
    | inr e ↦ rw (e.1, typed_condition) (refl, refl, refl, refl)
  ]

  -- A condition that `_structure` returns is the one of its type.
  pub structure-typed :
      (types : List (Text × AttributeValueType)) (raw : RawApplicabilityCondition F)
      (c : ApplicabilityCondition F)
      → structure types raw ≡ some c
      → c ≡ typed_condition (resolved_type types raw) raw
  unfolding structure
  structure-typed types raw c h = elim (Option-cases (condition_of (unstructured_of raw))) [
    | inl e ↦ absurd (ground arith)
    | inr e ↦
        sym (condition_of-some (typed_condition (resolved_type types raw) raw) c (ground arith))
  ]

  -- Structuring a clause fails exactly when its confidence is outside [0, 1] or its text is empty;
  -- whatever its operator, its value and its type, no other clause is lost.
  pub structure_fails_iff :
      (types : List (Text × AttributeValueType)) (raw : RawApplicabilityCondition F)
      → (structure types raw ≡ none)
        ↔ ((in_unit raw.confidence ≡ false) ⊎ (is_nil raw.raw_text ≡ true))
  unfolding structure condition_of unstructured_of
  structure_fails_iff types raw =
      let kept = typed_condition-Keeps (resolved_type types raw) raw in
      (λ h. ground (arith, kept), λ h. ground (arith, kept))

  -- A structured clause keeps its text, reference, confidence, unit and kind, and fills the columns
  -- of its resolved type and no others: a numeric parameter never becomes a list of strings, and a
  -- clause that could not be structured has no value at all.
  pub structure-Keeps :
      (types : List (Text × AttributeValueType)) (raw : RawApplicabilityCondition F)
      (c : ApplicabilityCondition F)
      → structure types raw ≡ some c
      → Keeps raw c × HasType (resolved_type types raw) c
  structure-Keeps types raw c h =
      let t = resolved_type types raw in
      subst (λ d. Keeps raw d × HasType t d) (sym (structure-typed types raw c h))
        (typed_condition-Keeps t raw, typed_condition-HasType t raw)

  -- The controlled vocabulary decides the type of a parameter that it knows.
  pub resolved_type-known :
      (types : List (Text × AttributeValueType)) (raw : RawApplicabilityCondition F)
      (t : AttributeValueType)
      → lookup (norm_param raw.parameter_name) types ≡ some t
      → resolved_type types raw ≡ t
  unfolding resolved_type value_type_of
  resolved_type-known types raw t h = ground arith
