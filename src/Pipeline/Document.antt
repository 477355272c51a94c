-- ===== src/Pipeline/Document.antt =====
-- `_resolve`, `_infer_hs` and `_run_classic_pipeline` of pipeline.py: one document from its job to the
-- rows of the tables.
use compliance_wizard_engine.Prelude.{
  ℕ, Bool, ◌&&◌, not, Option, none, some, List, [], ◌∷◌, ◌++◌, map, Text, text, is_nil, ◌==◌,
  text_eq, if◌then◌else◌, Floats,
}
use compliance_wizard_engine.Vocabulary.{AttributeValueType}
use compliance_wizard_engine.Store.{plain, body, route, HsMap, Job}
use compliance_wizard_engine.Schemas.{
  TextSegment, ExtractOutput, MappedField, MappingOutput, ValidationOutput, FetchEnrichmentOutput,
}
use compliance_wizard_engine.Hs.{map_regulation_hs_codes, map_inferred_hs_codes}
use compliance_wizard_engine.Relations.Resolver.{resolve_relationships}
use compliance_wizard_engine.Mapping.Fields.{Alias, run}
use compliance_wizard_engine.Validation.{validate}
use compliance_wizard_engine.Pipeline.Persist.{Db, identity, persist}

-- The agents that call a model or a service; None stands for an exception.
pub record Agents (F : Type 0) : Type 0 where
  pub read : Job → Option (List TextSegment)
  pub extract : List TextSegment → Option (ExtractOutput F)
  pub enrich : ValidationOutput F → Option (FetchEnrichmentOutput F)
  pub infer_hs_codes : Text → Option Text → Option (List (Text × Option F))

-- The tables that a run only reads, and the configuration.
pub record Reference (F : Type 0) : Type 0 where
  pub aliases : List Alias
  pub attribute_types : List (Text × AttributeValueType)
  pub nomenclature : List Text
  pub threshold : F
  pub hs_inference_enabled : Bool
  pub shown : ℕ → Text

module _ {F : Type 0} where
  abbrev pub hs_code_of : MappedField F → List Text
  hs_code_of f = elim f.canonical_value [
    | plain t ↦ if f.field_name == text "hs_code" && not (is_nil t) then t ∷ [] else []
    | body name id resolved ↦ []
    | route category modules cond ↦ []
  ]

  unfoldable pub hs_codes_of : List (MappedField F) → List Text
  hs_codes_of [] = []
  hs_codes_of (f ∷ fields) = hs_code_of f ++ hs_codes_of fields

  -- The first textual scope description, or the empty text.
  unfoldable pub scope_of : List (MappedField F) → Text
  scope_of [] = []
  scope_of (f ∷ fields) =
      let rest = scope_of fields in
      elim f.canonical_value [
        | plain t ↦ if f.field_name == text "scope_description" then t else rest
        | body name id resolved ↦ rest
        | route category modules cond ↦ rest
      ]

  module _ ⦃fl : Floats F⦄ where
    -- `_infer_hs`: a failing inference is skipped.
    unfoldable pub infer_hs :
        Reference F → Agents F → ℕ → ValidationOutput F → List (HsMap F) → List (HsMap F)
    unfolding scope_of
    infer_hs ref agents reg v rows =
        if not ref.hs_inference_enabled
        then rows
        else elim (agents.infer_hs_codes (scope_of v.fields) v.summary) [
          | none ↦ rows
          | some cands ↦ (map_inferred_hs_codes reg cands rows 0).0
        ]

    -- `_resolve`
    unfoldable pub resolve :
        Reference F
        → Agents F
        → ℕ
        → List Text
        → FetchEnrichmentOutput F
        → ValidationOutput F
        → Db F
        → Db F
    unfolding infer_hs hs_codes_of
    resolve ref agents reg mentions fetch v db =
        let rels = if fetch.skipped then [] else fetch.api_sourced_relationships in
        record db {
          graph = resolve_relationships reg mentions rels db.graph;
          hs_rows =
              infer_hs ref agents reg v
                (map_regulation_hs_codes ref.nomenclature reg (hs_codes_of v.fields) db.hs_rows);
        }

    -- `_persist`, then `_resolve`.
    unfoldable pub persist_and_resolve :
        Reference F
        → Agents F
        → Job
        → List Text
        → ValidationOutput F
        → FetchEnrichmentOutput F
        → Db F
        → Db F
    unfolding resolve
    persist_and_resolve ref agents job mentions v fetch db =
        let (db', reg) = persist ref.threshold job v fetch db in
        resolve ref agents reg mentions fetch v db'

    abbrev pub validation_of : Reference F → MappingOutput F → ValidationOutput F
    validation_of ref m = validate (map (λ t. t.0) ref.attribute_types) ref.threshold m

    -- From a mapped record on. Where the enrichment raises, nothing has been stored.
    unfoldable pub finish :
        Reference F → Agents F → Job → List Text → MappingOutput F → Db F → Option (Db F)
    unfolding persist_and_resolve
    finish ref agents job mentions m db =
        let v = validation_of ref m in
        elim (agents.enrich v) [
          | none ↦ none
          | some fetch ↦ some (persist_and_resolve ref agents job mentions v fetch db)
        ]

    -- Mapping and everything after it, for an extracted document.
    unfoldable pub ingest : Reference F → Agents F → Job → ExtractOutput F → Db F → Option (Db F)
    unfolding finish
    ingest ref agents job e db =
        let (source_id, jurisdiction) = identity ref.shown job in
        elim (run ref.aliases ref.attribute_types e source_id jurisdiction) [
          | none ↦ none
          | some m ↦ finish ref agents job e.regulation_mentions m db
        ]

    -- `_run_classic_pipeline`; None where it raises.
    unfoldable pub run_classic_pipeline : Reference F → Agents F → Job → Db F → Option (Db F)
    unfolding ingest
    run_classic_pipeline ref agents job db = elim (agents.read job) [
      | none ↦ none
      | some segments ↦ elim (agents.extract segments) [
        | none ↦ none
        | some e ↦ ingest ref agents job e db
      ]
    ]
