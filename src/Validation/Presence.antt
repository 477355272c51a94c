-- ===== src/Validation/Presence.antt =====
-- What the checks of agents/validation_agent.py ask of the fields and the clauses, said without their
-- code.
use compliance_wizard_engine.Prelude.{
  ◌≡◌, ◌≢◌, ◌⊎◌, ◌↔◌, refl, inl, inr, Bool, true, false, ◌&&◌, ◌||◌, not, Bool-cases, Option, none,
  some, List, [], ◌∷◌, Text, text, any, is_empty, is_nil, contains, All, Any, ◌==◌, text_eq,
  text_beq_iff, arith,
}
use compliance_wizard_engine.Store.{CanonicalValue}
use compliance_wizard_engine.Schemas.{MappedField, ApplicabilityCondition}
use compliance_wizard_engine.Validation.{
  is_hs_code, text_value, is_unresolved, named_value, is_foreign, is_unknown, fields_named, bad_hs,
  bad_body, has_value, lacks_body, lacks_standard, lacks_production_type,
}
use compliance_wizard_engine.Validation.Demands.{
  IsHsValue, IsResolved, Says, IsAtHome, is_hs_code-IsHsValue, is_unresolved-IsResolved,
  named_value-Says, nil_text, is_foreign-IsAtHome,
}

implies :
    (b c : Bool) {A B : Type 0} → (b ≡ true) ↔ A → (c ≡ false) ↔ B → ((b && c) ≡ false) ↔ (A → B)
implies true c p q = (λ h a. q.0 h, λ f. q.1 (f (p.0 refl)))
implies false c p q = (λ h a. absurd (cc (p.1 a)), λ f. refl)

either :
    (b c : Bool) {A B : Type 0}
    → (b ≡ false) ↔ A
    → (c ≡ false) ↔ B
    → ((not b || not c) ≡ true) ↔ (A ⊎ B)
either false c p q = (λ h. inl (p.0 refl), λ h. refl)
either true false p q = (λ h. inr (q.0 refl), λ h. refl)
either true true p q =
    (λ h. cc h, λ h. elim h [ inl a ↦ absurd (cc (p.1 a)) | inr b ↦ absurd (cc (q.1 b)) ])

negated : (b : Bool) {A : Type 0} → (b ≡ true) ↔ A → (not b ≡ false) ↔ A
negated true p = (λ h. p.0 refl, λ a. refl)
negated false p = (λ h. cc h, λ a. absurd (cc (p.1 a)))

-- A parameter without a name, or one of the vocabulary.
abbrev pub IsInVocabulary : List Text → Option Text → Type 0
IsInVocabulary known_params none = Unit
IsInVocabulary known_params (some p) = (p ≡ []) ⊎ Any (λ k. p ≡ k) known_params

contains-Any : (p : Text) (ks : List Text) → (contains p ks ≡ true) ↔ Any (λ k. p ≡ k) ks
contains-Any p [] = (λ h. cc h, λ h. absurd h)
contains-Any p (k ∷ ks) =
    let same = text_beq_iff p k in
    let rest = contains-Any p ks in
    (
      λ h. elim (Bool-cases (p == k)) [
        | inl e ↦ inl (same.0 e)
        | inr e ↦ inr (rest.0 (ground arith))
      ],
      λ h. elim h [ inl e ↦ ground (arith, same.1 e) | inr e ↦ ground (arith, rest.1 e) ],
    )

known_parameter :
    (known_params : List Text) (p : Option Text)
    → (is_unknown known_params p ≡ false) ↔ IsInVocabulary known_params p
known_parameter known_params none = (λ h. tt, λ h. refl)
known_parameter known_params (some p) =
    let empty = nil_text p in
    let there = contains-Any p known_params in
    (
      λ h. elim (Bool-cases (is_nil p)) [
        | inl e ↦ inl (empty.0 e)
        | inr e ↦ inr (there.0 (ground arith))
      ],
      λ h. elim h [ inl e ↦ ground (arith, empty.1 e) | inr e ↦ ground (arith, there.1 e) ],
    )

module _ {F : Type 0} where
  -- A field of this name is there, with a value that is so.
  abbrev pub Has : Text → (CanonicalValue → Type 0) → List (MappedField F) → Type 0
  Has name P fields = Any (λ f. (f.field_name ≡ name) × P f.canonical_value) fields

  abbrev pub Exists : Text → List (MappedField F) → Type 0
  Exists name fields = Any (λ f. f.field_name ≡ name) fields

  has_lem :
      (name t : Text) (fields : List (MappedField F))
      → t ≢ []
      → (any (has_value t) (fields_named name fields) ≡ true) ↔ Has name (Says t) fields
  has_lem name t [] ne = (λ h. cc h, λ h. absurd h)
  has_lem name t (f ∷ fields) ne =
      let says = named_value-Says t f.canonical_value ne in
      let same = text_beq_iff f.field_name name in
      let rest = has_lem name t fields ne in
      elim (Bool-cases (f.field_name == name)) [
        | inl e ↦ rw e (
          λ h. elim (Bool-cases (named_value f.canonical_value == t)) [
            | inl k ↦ inl (same.0 e, says.0 k)
            | inr k ↦ inr (rest.0 (ground arith))
          ],
          λ h. elim h [ inl k ↦ ground (arith, says.1 k.1) | inr k ↦ ground (arith, rest.1 k) ],
        )
        | inr e ↦ rw e (
          λ h. inr (rest.0 h),
          λ h. elim h [ inl k ↦ absurd (ground (arith, same.1 k.0)) | inr k ↦ rest.1 k ],
        )
      ]

  exists_lem :
      (name : Text) (fields : List (MappedField F))
      → (is_empty (fields_named name fields) ≡ false) ↔ Exists name fields
  exists_lem name [] = (λ h. cc h, λ h. absurd h)
  exists_lem name (f ∷ fields) =
      let same = text_beq_iff f.field_name name in
      let rest = exists_lem name fields in
      elim (Bool-cases (f.field_name == name)) [
        | inl e ↦ rw e (λ h. inl (same.0 e), λ h. refl)
        | inr e ↦ rw e (
          λ h. inr (rest.0 h),
          λ h. elim h [ inl k ↦ absurd (ground (arith, same.1 k)) | inr k ↦ rest.1 k ],
        )
      ]

  -- A field that is an HS code or a certification body is one in form.
  abbrev pub IsFormatted : MappedField F → Type 0
  IsFormatted f =
      (f.field_name ≡ text "hs_code" → IsHsValue f.canonical_value)
      × (f.field_name ≡ text "certification_body" → IsResolved f.canonical_value)

  pub format_checked :
      (f : MappedField F) → ((bad_hs f ≡ false) × (bad_body f ≡ false)) ↔ IsFormatted f
  format_checked f =
      let hs =
        implies (f.field_name == text "hs_code") (not (is_hs_code (text_value f.canonical_value)))
          (text_beq_iff f.field_name (text "hs_code"))
          (negated (is_hs_code (text_value f.canonical_value))
            (is_hs_code-IsHsValue f.canonical_value)) in
      let body =
        implies (f.field_name == text "certification_body") (is_unresolved f.canonical_value)
          (text_beq_iff f.field_name (text "certification_body"))
          (is_unresolved-IsResolved f.canonical_value) in
      (λ h. (hs.0 h.0, body.0 h.1), λ h. (hs.1 h.0, body.1 h.1))

  -- A field that is a marking belongs to no other jurisdiction.
  abbrev pub IsMarkedAtHome : Text → MappedField F → Type 0
  IsMarkedAtHome jurisdiction f =
      f.field_name ≡ text "marking" → IsAtHome jurisdiction f.canonical_value

  abbrev pub Passes : Text → MappedField F → Type 0
  Passes jurisdiction f = is_foreign jurisdiction (named_value f.canonical_value) ≡ false

  pub markings_at_home :
      (jurisdiction : Text) (fields : List (MappedField F))
      → All (Passes jurisdiction) (fields_named (text "marking") fields)
        ↔ All (IsMarkedAtHome jurisdiction) fields
  markings_at_home jurisdiction [] = (λ h. h, λ h. h)
  markings_at_home jurisdiction (f ∷ fields) =
      let same = text_beq_iff f.field_name (text "marking") in
      let home = is_foreign-IsAtHome jurisdiction f.canonical_value in
      let rest = markings_at_home jurisdiction fields in
      elim (Bool-cases (f.field_name == text "marking")) [
        | inl e ↦
            rw e (λ h. ((λ _. home.0 h.0), rest.0 h.1), λ h. (home.1 (h.0 (same.0 e)), rest.1 h.1))
        | inr e ↦ rw e (λ h. ((λ m. absurd (ground (arith, same.1 m))), rest.0 h), λ h. rest.1 h.1)
      ]

  pub body_named :
      (fields : List (MappedField F))
      → (lacks_body fields ≡ false) ↔ (
          Has (text "conformity_assessment_type") (Says (text "3rd-party")) fields
          → Exists (text "certification_body") fields)
  body_named fields =
      implies _ _
        (has_lem (text "conformity_assessment_type") (text "3rd-party") fields (λ e. cc e))
        (exists_lem (text "certification_body") fields)

  pub standard_named :
      (fields : List (MappedField F))
      → (lacks_standard fields ≡ false) ↔ (
          Has (text "marking") (Says (text "CE")) fields
          → Exists (text "standard_harmonized") fields)
  standard_named fields =
      implies _ _ (has_lem (text "marking") (text "CE") fields (λ e. cc e))
        (exists_lem (text "standard_harmonized") fields)

  pub production_named :
      (fields : List (MappedField F))
      → (lacks_production_type fields ≡ false) ↔ (
          (Exists (text "conformity_path_testing") fields
            ⊎ Exists (text "conformity_path_inspection") fields)
          → Exists (text "production_type") fields)
  production_named fields =
      implies _ _
        (either _ _ (exists_lem (text "conformity_path_testing") fields)
          (exists_lem (text "conformity_path_inspection") fields))
        (exists_lem (text "production_type") fields)

  -- A clause that is structured and over a parameter of the vocabulary, if over any.
  abbrev pub IsKnown : List Text → ApplicabilityCondition F → Type 0
  IsKnown known_params c = (c.is_structured ≡ true) × IsInVocabulary known_params c.parameter_name

  pub known_condition :
      (known_params : List Text) (c : ApplicabilityCondition F)
      → ((c.is_structured ≡ true) × (is_unknown known_params c.parameter_name ≡ false))
        ↔ IsKnown known_params c
  known_condition known_params c =
      let known = known_parameter known_params c.parameter_name in
      (λ h. (h.0, known.0 h.1), λ h. (h.0, known.1 h.1))
