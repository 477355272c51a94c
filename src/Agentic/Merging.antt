-- ===== src/Agentic/Merging.antt =====
-- `_merge_extractions` of agentic/specialists.py: the extractions of the chunks as one.
use compliance_wizard_engine.Prelude.{
  Bool, true, false, ◌&&◌, ◌||◌, Option, none, some, List, [], ◌∷◌, ◌++◌, map, Text, is_nil, lower,
  upper, strip, text_leb, sort, any, contains, ◌==◌, text_eq, if◌then◌else◌, Floats,
}
use compliance_wizard_engine.Schemas.{ExtractedField, ConformityRoute, ExtractOutput, is_blank}

-- The members of a list in order, but for those whose key is to be dropped, or was seen before.
unfoldable pub first_seen : {A : Type 0} → (A → Text) → List Text → List A → List A
first_seen key seen [] = []
first_seen key seen (x ∷ xs) =
    let drop = is_nil (key x) || contains (key x) seen in
    let rest = first_seen key (if drop then seen else key x ∷ seen) xs in
    if drop then rest else x ∷ rest

-- All lists of a part of the extractions, one after the other.
unfoldable pub gathered : {A B : Type 0} → (A → List B) → List A → List B
gathered part [] = []
gathered part (p ∷ ps) = part p ++ gathered part ps

-- Two routes with the same category and the same modules, whatever their order and case.
unfoldable pub texts_beq : List Text → List Text → Bool
texts_beq [] [] = true
texts_beq (s ∷ ss) (t ∷ ts) = s == t && texts_beq ss ts
texts_beq _ _ = false

module _ {F : Type 0} where
  abbrev pub item_key : ExtractedField F → Text
  item_key it = lower (strip it.value)

  abbrev route_modules : ConformityRoute F → List Text
  route_modules r = sort text_leb (map (λ m. upper (strip m)) r.modules)

  unfoldable pub same_route : ConformityRoute F → ConformityRoute F → Bool
  unfolding texts_beq
  same_route r q =
      lower (strip r.category) == lower (strip q.category)
      && texts_beq (route_modules r) (route_modules q)

  unfoldable pub first_routes :
      List (ConformityRoute F) → List (ConformityRoute F) → List (ConformityRoute F)
  unfolding same_route
  first_routes seen [] = []
  first_routes seen (r ∷ rs) =
      let known = any (same_route r) seen in
      let rest = first_routes (if known then seen else r ∷ seen) rs in
      if known then rest else r ∷ rest

  -- The first summary that is not empty.
  unfoldable pub first_summary : List (ExtractOutput F) → Option Text
  first_summary [] = none
  first_summary (p ∷ ps) =
      let rest = first_summary ps in if is_blank p.summary then rest else p.summary

  module _ ⦃fl : Floats F⦄ where
    abbrev pub better :
        Option (ExtractedField F) → Option (ExtractedField F) → Option (ExtractedField F)
    better best none = best
    better none (some v) = some v
    better (some b) (some v) = if fl.flt b.confidence v.confidence then some v else some b

    -- The value with the highest confidence, the first of equals.
    unfoldable pub best_scalar :
        (ExtractOutput F → Option (ExtractedField F))
        → Option (ExtractedField F)
        → List (ExtractOutput F)
        → Option (ExtractedField F)
    best_scalar part best [] = best
    best_scalar part best (p ∷ ps) = best_scalar part (better best (part p)) ps

    abbrev pub union_items :
        (ExtractOutput F → List (ExtractedField F))
        → List (ExtractOutput F)
        → List (ExtractedField F)
    union_items part ps = first_seen item_key [] (gathered part ps)

    unfoldable pub merge_extractions : List (ExtractOutput F) → ExtractOutput F
    unfolding first_seen gathered first_routes first_summary best_scalar
    merge_extractions ps = record {
      summary = first_summary ps;
      scope_description = best_scalar (λ p. p.scope_description) none ps;
      scope_params = union_items (λ p. p.scope_params) ps;
      hs_codes = union_items (λ p. p.hs_codes) ps;
      conformity_path_testing = best_scalar (λ p. p.conformity_path_testing) none ps;
      conformity_path_inspection = best_scalar (λ p. p.conformity_path_inspection) none ps;
      conformity_assessment_type = best_scalar (λ p. p.conformity_assessment_type) none ps;
      conformity_body_type = best_scalar (λ p. p.conformity_body_type) none ps;
      conformity_routes = first_routes [] (gathered (λ p. p.conformity_routes) ps);
      conformity_docs = union_items (λ p. p.conformity_docs) ps;
      technical_documentation = best_scalar (λ p. p.technical_documentation) none ps;
      production_type = best_scalar (λ p. p.production_type) none ps;
      legal_entities = union_items (λ p. p.legal_entities) ps;
      standards_references = union_items (λ p. p.standards_references) ps;
      standards_harmonized = union_items (λ p. p.standards_harmonized) ps;
      markings = union_items (λ p. p.markings) ps;
      certification_bodies = union_items (λ p. p.certification_bodies) ps;
      exclusions = union_items (λ p. p.exclusions) ps;
      regulation_mentions = first_seen (λ m. m) [] (gathered (λ p. p.regulation_mentions) ps);
      applicability_conditions = gathered (λ p. p.applicability_conditions) ps;
    }
