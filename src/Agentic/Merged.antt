-- ===== src/Agentic/Merged.antt =====
-- What merging the extractions of the chunks keeps (`_merge_extractions` of agentic/specialists.py).
use compliance_wizard_engine.Prelude.{
  ◌≡◌, inl, inr, Bool, true, false, Bool-cases, Option, none, some, List, [], ◌∷◌, Text, is_nil,
  any, All, ◌==◌, text_eq, Floats, IsOrdered,
}
use compliance_wizard_engine.Schemas.{ExtractedField, ExtractOutput}
use compliance_wizard_engine.Agentic.Merging.{
  gathered, item_key, better, best_scalar, merge_extractions,
}

abbrev pub has_key : {A : Type 0} → (A → Text) → Text → A → Bool
has_key key k x = key x == k

-- No two members share a key.
abbrev pub HasDistinct : {A : Type 0} → (A → Text) → List A → Type 0
HasDistinct key [] = Unit
HasDistinct key (x ∷ xs) = (any (has_key key (key x)) xs ≡ false) × HasDistinct key xs

module _ {F : Type 0} ⦃fl : Floats F⦄ where
  -- A value of a chunk, if there is one, is no surer than the merged value.
  abbrev pub IsCovered : Option (ExtractedField F) → Option (ExtractedField F) → Type 0
  IsCovered (some v) (some b) = fl.fle v.confidence b.confidence ≡ true
  IsCovered (some v) none = ⊥
  IsCovered none b = Unit

  module _ (o : IsOrdered fl) where
    IsCovered-trans :
        (a b c : Option (ExtractedField F)) → IsCovered a b → IsCovered b c → IsCovered a c
    IsCovered-trans none b c h k = tt
    IsCovered-trans (some v) none c h k = elim h [ ]
    IsCovered-trans (some v) (some b) none h k = elim k [ ]
    IsCovered-trans (some v) (some b) (some c) h k =
        o.fle_trans v.confidence b.confidence c.confidence h k

    IsCovered-refl : (a : Option (ExtractedField F)) → IsCovered a a
    IsCovered-refl none = tt
    IsCovered-refl (some v) = o.fle_refl v.confidence

    better-IsCovered :
        (a b : Option (ExtractedField F)) → IsCovered a (better a b) × IsCovered b (better a b)
    better-IsCovered none none = (tt, tt)
    better-IsCovered none (some v) = (tt, o.fle_refl v.confidence)
    better-IsCovered (some b) none = (o.fle_refl b.confidence, tt)
    better-IsCovered (some b) (some v) = elim (Bool-cases (fl.flt b.confidence v.confidence)) [
      | inl e ↦ rw e (o.flt_fle b.confidence v.confidence e, o.fle_refl v.confidence)
      | inr e ↦ rw e (o.fle_refl b.confidence, o.flt_false b.confidence v.confidence e)
    ]

    best_scalar-IsCovered :
        (part : ExtractOutput F → Option (ExtractedField F)) (best : Option (ExtractedField F))
        (ps : List (ExtractOutput F))
        → IsCovered best (best_scalar part best ps)
          × All (λ p. IsCovered (part p) (best_scalar part best ps)) ps
    unfolding best_scalar
    best_scalar-IsCovered part best [] = (IsCovered-refl best, tt)
    best_scalar-IsCovered part best (p ∷ ps) =
        let (kept, rest) = best_scalar-IsCovered part (better best (part p)) ps in
        let (old, new) = better-IsCovered best (part p) in
        (IsCovered-trans best _ _ old kept, (IsCovered-trans (part p) _ _ new kept, rest))

  -- _ARRAY_FIELDS and _SCALAR_FIELDS
  abbrev pub array_parts : List (ExtractOutput F → List (ExtractedField F))
  array_parts =
      (λ p. p.scope_params)
      ∷ (λ p. p.hs_codes)
      ∷ (λ p. p.conformity_docs)
      ∷ (λ p. p.legal_entities)
      ∷ (λ p. p.standards_references)
      ∷ (λ p. p.standards_harmonized)
      ∷ (λ p. p.markings)
      ∷ (λ p. p.certification_bodies)
      ∷ (λ p. p.exclusions)
      ∷ []

  abbrev pub scalar_parts : List (ExtractOutput F → Option (ExtractedField F))
  scalar_parts =
      (λ p. p.scope_description)
      ∷ (λ p. p.conformity_path_testing)
      ∷ (λ p. p.conformity_path_inspection)
      ∷ (λ p. p.conformity_assessment_type)
      ∷ (λ p. p.conformity_body_type)
      ∷ (λ p. p.technical_documentation)
      ∷ (λ p. p.production_type)
      ∷ []

  -- A list of the merged record against the chunks: the same keys, each once.
  abbrev pub IsUnion :
      (ExtractOutput F → List (ExtractedField F))
      → ExtractOutput F
      → List (ExtractOutput F)
      → Type 0
  IsUnion part merged ps =
      ((k : Text)
        → is_nil k ≡ false
        → any (has_key item_key k) (part merged) ≡ any (has_key item_key k) (gathered part ps))
      × HasDistinct item_key (part merged)

  -- On floats without NaN: for each of the seven single values, no chunk has one of a higher
  -- confidence than the merged record, and the merged record has one if some chunk has.
  pub merge_extractions-IsCovered :
      IsOrdered fl
      → (ps : List (ExtractOutput F))
      → All (λ part. All (λ p. IsCovered (part p) (part (merge_extractions ps))) ps) scalar_parts
  unfolding merge_extractions
  merge_extractions-IsCovered o ps =
      let best = (λ (part : ExtractOutput F → Option (ExtractedField F)).
        (best_scalar-IsCovered o part none ps).1) in
      (
        best (λ p. p.scope_description),
        (
          best (λ p. p.conformity_path_testing),
          (
            best (λ p. p.conformity_path_inspection),
            (
              best (λ p. p.conformity_assessment_type),
              (
                best (λ p. p.conformity_body_type),
                (best (λ p. p.technical_documentation), (best (λ p. p.production_type), tt)),
              ),
            ),
          ),
        ),
      )
