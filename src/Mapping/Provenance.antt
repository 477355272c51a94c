-- ===== src/Mapping/Provenance.antt =====
-- `run` of agents/mapping_agent.py loses nothing that was extracted.
use mathlib.Core.List.{map-append}
use compliance_wizard_engine.Prelude.{
  ℕ, ◌≡◌, ◌≢◌, refl, ap, true, false, Option, none, some, Option-cases, inl, inr, List, [], ◌∷◌,
  ◌++◌, map, Text, text, is_nil, All, arith, Floats,
}
use compliance_wizard_engine.Vocabulary.{AttributeValueType}
use compliance_wizard_engine.Schemas.{
  ExtractedField, ConformityRoute, ExtractOutput, RawApplicabilityCondition, ApplicabilityCondition,
  MappedField, MappingOutput, in_unit,
}
use compliance_wizard_engine.Mapping.Structure.{structure}
use compliance_wizard_engine.Mapping.Structuring.{structure-Keeps, structure_fails_iff}
use compliance_wizard_engine.Mapping.Fields.{
  Alias, map_field, map_conformity_route, named_fields, structure_all, run,
}

module _ {F : Type 0} ⦃fl : Floats F⦄ where
  -- Where a value was found, and how sure the extraction was.
  abbrev pub origin : MappedField F → Text × Text × F × ℕ
  origin f = (f.field_name, f.reference, f.confidence, f.source_segment_index)

  abbrev pub extracted_origin : Text × ExtractedField F → Text × Text × F × ℕ
  extracted_origin (name, ef) = (name, ef.reference, ef.confidence, ef.source_segment_index)

  abbrev pub route_origin : ConformityRoute F → Text × Text × F × ℕ
  route_origin r = (text "conformity_route", r.reference, r.confidence, r.source_segment_index)

  origins-map_field :
      (aliases : List Alias) (nfs : List (Text × ExtractedField F))
      → map origin (map (λ nf. map_field aliases nf.0 nf.1) nfs) ≡ map extracted_origin nfs
  unfolding map_field
  origins-map_field aliases [] = refl
  origins-map_field aliases (nf ∷ nfs) =
      ap (λ os. extracted_origin nf ∷ os) (origins-map_field aliases nfs)

  origins-routes :
      (rs : List (ConformityRoute F))
      → map origin (map map_conformity_route rs) ≡ map route_origin rs
  unfolding map_conformity_route
  origins-routes [] = refl
  origins-routes (r ∷ rs) = ap (λ os. route_origin r ∷ os) (origins-routes rs)

  abbrev pub clause : ApplicabilityCondition F → Option Text × Text × F
  clause c = (c.raw_text, c.reference, c.confidence)

  abbrev pub raw_clause : RawApplicabilityCondition F → Option Text × Text × F
  raw_clause raw = (some raw.raw_text, raw.reference, raw.confidence)

  structure_all-clauses :
      (types : List (Text × AttributeValueType)) (raws : List (RawApplicabilityCondition F))
      (cs : List (ApplicabilityCondition F))
      → structure_all types raws ≡ some cs
      → map clause cs ≡ map raw_clause raws
  unfolding structure_all
  structure_all-clauses types [] cs h = ground arith
  structure_all-clauses types (raw ∷ raws) cs h = elim (Option-cases (structure types raw)) [
    | inl e ↦ absurd (ground arith)
    | inr (c, e) ↦ elim (Option-cases (structure_all types raws)) [
      | inl d ↦ absurd (ground arith)
      | inr (ds, d) ↦
          let kept = (structure-Keeps types raw c e).0 in
          ground (arith, kept, structure_all-clauses types raws ds d)
    ]
  ]

  -- A mapped record has one field for each extracted field and each route, in their order and with
  -- the name, reference, confidence and segment of each, and one condition for each extracted
  -- clause, in their order and with the clause's text, reference and confidence.
  pub run_keeps_all :
      (aliases : List Alias) (types : List (Text × AttributeValueType)) (e : ExtractOutput F)
      (source_id jurisdiction : Text) (m : MappingOutput F)
      → run aliases types e source_id jurisdiction ≡ some m
      → (map origin m.fields
          ≡ map extracted_origin (named_fields e) ++ map route_origin e.conformity_routes)
        × (map clause m.applicability_conditions ≡ map raw_clause e.applicability_conditions)
  unfolding run
  run_keeps_all aliases types e source_id jurisdiction m h =
      elim (Option-cases (structure_all types e.applicability_conditions)) [
        | inl d ↦ absurd (ground arith)
        | inr (cs, d) ↦ ground (
          arith,
          map-append origin (map (λ nf. map_field aliases nf.0 nf.1) (named_fields e))
              (map map_conformity_route e.conformity_routes),
          origins-map_field aliases (named_fields e),
          origins-routes e.conformity_routes,
          structure_all-clauses types e.applicability_conditions cs d,
        )
      ]

  structure_all_total :
      (types : List (Text × AttributeValueType)) (raws : List (RawApplicabilityCondition F))
      → All (λ raw. (in_unit raw.confidence ≡ true) × (is_nil raw.raw_text ≡ false)) raws
      → structure_all types raws ≢ none
  unfolding structure_all
  structure_all_total types [] h = λ e. cc
  structure_all_total types (raw ∷ raws) h =
      ground (arith, structure_all_total types raws h.1, (structure_fails_iff types raw).0)

  -- Mapping succeeds on every extraction whose clauses have a confidence in [0, 1] and a text.
  pub run_total :
      (aliases : List Alias) (types : List (Text × AttributeValueType)) (e : ExtractOutput F)
      (source_id jurisdiction : Text)
      → All
          (λ raw. (in_unit raw.confidence ≡ true) × (is_nil raw.raw_text ≡ false))
          e.applicability_conditions
      → run aliases types e source_id jurisdiction ≢ none
  unfolding run
  run_total aliases types e source_id jurisdiction h =
      ground (arith, structure_all_total types e.applicability_conditions h)
