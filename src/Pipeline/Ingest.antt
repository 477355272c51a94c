-- ===== src/Pipeline/Ingest.antt =====
-- What an ingested document does to the tables, and any number of documents one after the other.
use compliance_wizard_engine.Prelude.{
  ℕ, suc, ◌≡◌, ◌≢◌, ◌⊎◌, sym, subst, true, false, inl, inr, none, some, Option-cases, List, [], ◌∷◌,
  Text, is_nil, All, All-append, All-keep, arith, Floats,
}
use compliance_wizard_engine.Vocabulary.{AttributeValueType}
use compliance_wizard_engine.Store.{Job}
use compliance_wizard_engine.Schemas.{
  RawApplicabilityCondition, ApplicabilityCondition, ExtractOutput, MappingOutput, ReviewFlag,
  ValidationOutput, FetchEnrichmentOutput, condition_of, in_unit, is_blank,
}
use compliance_wizard_engine.Mapping.Structure.{structure, typed_condition, resolved_type}
use compliance_wizard_engine.Mapping.Structuring.{structure-typed}
use compliance_wizard_engine.Mapping.Fields.{Alias, structure_all, run}
use compliance_wizard_engine.Mapping.Provenance.{run_total}
use compliance_wizard_engine.Pipeline.Persist.{Db, condition_row, condition_rows, persist, identity}
use compliance_wizard_engine.Validation.{validate}
use compliance_wizard_engine.Pipeline.Document.{
  Agents, Reference, persist_and_resolve, validation_of, finish, ingest, resolve,
}
use compliance_wizard_engine.Wizard.Totality.{IsStorable}

module _ {F : Type 0} ⦃fl : Floats F⦄ where
  -- The record's own checks.
  abbrev pub IsValid : ApplicabilityCondition F → Type 0
  IsValid c =
      (in_unit c.confidence ≡ true) × ((c.is_structured ≡ true) ⊎ (is_blank c.raw_text ≡ false))

  condition_of-IsValid : (c d : ApplicabilityCondition F) → condition_of c ≡ some d → IsValid c
  unfolding condition_of
  condition_of-IsValid c d h = ground arith

  structure-IsValid :
      (types : List (Text × AttributeValueType)) (raw : RawApplicabilityCondition F)
      (c : ApplicabilityCondition F)
      → structure types raw ≡ some c
      → IsValid c
  unfolding structure
  structure-IsValid types raw c h =
      let t = typed_condition (resolved_type types raw) raw in
      subst IsValid (sym (structure-typed types raw c h)) (condition_of-IsValid t c (ground arith))

  structure_all-IsValid :
      (types : List (Text × AttributeValueType)) (raws : List (RawApplicabilityCondition F))
      (cs : List (ApplicabilityCondition F))
      → structure_all types raws ≡ some cs
      → All IsValid cs
  unfolding structure_all
  structure_all-IsValid types [] cs h = let q : [] ≡ cs = ground arith in subst (All IsValid) q tt
  structure_all-IsValid types (raw ∷ raws) cs h = elim (Option-cases (structure types raw)) [
    | inl e ↦ absurd (ground arith)
    | inr (c, e) ↦ elim (Option-cases (structure_all types raws)) [
      | inl d ↦ absurd (ground arith)
      | inr (ds, d) ↦
          let q : c ∷ ds ≡ cs = ground arith in
          subst (All IsValid) q
            (structure-IsValid types raw c e, structure_all-IsValid types raws ds d)
    ]
  ]

  run-IsValid :
      (aliases : List Alias) (types : List (Text × AttributeValueType)) (e : ExtractOutput F)
      (source_id jurisdiction : Text) (m : MappingOutput F)
      → run aliases types e source_id jurisdiction ≡ some m
      → All IsValid m.applicability_conditions
  unfolding run
  run-IsValid aliases types e source_id jurisdiction m h =
      elim (Option-cases (structure_all types e.applicability_conditions)) [
        | inl d ↦ absurd (ground arith)
        | inr (cs, d) ↦
            let q : cs ≡ m.applicability_conditions = ground arith in
            subst (All IsValid) q (structure_all-IsValid types e.applicability_conditions cs d)
      ]

  condition_rows-IsStorable :
      (threshold : F) (reg k : ℕ) (flags : List ReviewFlag) (cs : List (ApplicabilityCondition F))
      → All IsValid cs
      → All IsStorable (condition_rows threshold reg flags k cs)
  unfolding condition_rows condition_row
  condition_rows-IsStorable threshold reg k flags [] h = tt
  condition_rows-IsStorable threshold reg k flags (c ∷ cs) h =
      (h.0, condition_rows-IsStorable threshold reg (suc k) flags cs h.1)

  persist_and_resolve-IsStorable :
      (ref : Reference F) (agents : Agents F) (job : Job) (mentions : List Text)
      (m : MappingOutput F) (fetch : FetchEnrichmentOutput F) (db : Db F)
      → All IsValid m.applicability_conditions
      → All IsStorable db.conditions
      → All IsStorable
          (persist_and_resolve ref agents job mentions (validation_of ref m) fetch db).conditions
  unfolding persist_and_resolve resolve persist validate
  persist_and_resolve-IsStorable ref agents job mentions m fetch db valid h =
      All-append IsStorable _ _ (All-keep IsStorable _ db.conditions h)
        (condition_rows-IsStorable _ _ 0 _ m.applicability_conditions valid)

  -- An ingested document was mapped and enriched, and then stored.
  pub ingest-finish :
      (ref : Reference F) (agents : Agents F) (job : Job) (e : ExtractOutput F) (db db' : Db F)
      → ingest ref agents job e db ≡ some db'
      → (m : MappingOutput F) × (let (source_id, jurisdiction) = identity ref.shown job in
          run ref.aliases ref.attribute_types e source_id jurisdiction ≡ some m)
        × (fetch : FetchEnrichmentOutput F) × (persist_and_resolve ref agents job
              e.regulation_mentions
              (validation_of ref m)
              fetch
              db
            ≡ db')
  unfolding ingest finish
  ingest-finish ref agents job e db db' h =
      let (source_id, jurisdiction) = identity ref.shown job in
      elim (Option-cases (run ref.aliases ref.attribute_types e source_id jurisdiction)) [
        | inl none_mapped ↦ absurd (ground arith)
        | inr (m, mapped) ↦ elim (Option-cases (agents.enrich (validation_of ref m))) [
          | inl e ↦ absurd (ground arith)
          | inr (fetch, e) ↦ (m, mapped, fetch, ground arith)
        ]
      ]

  -- Ingesting a document keeps every stored condition within the constraints of its table.
  pub ingest-IsStorable :
      (ref : Reference F) (agents : Agents F) (job : Job) (e : ExtractOutput F) (db db' : Db F)
      → ingest ref agents job e db ≡ some db'
      → All IsStorable db.conditions
      → All IsStorable db'.conditions
  ingest-IsStorable ref agents job e db db' h k =
      let (m, mapped, fetch, q) = ingest-finish ref agents job e db db' h in
      subst (λ d. All IsStorable d.conditions) q
        (persist_and_resolve-IsStorable ref agents job e.regulation_mentions m fetch db
          (run-IsValid ref.aliases ref.attribute_types e _ _ m mapped) k)

  pub ingest_total :
      (ref : Reference F) (agents : Agents F) (job : Job) (e : ExtractOutput F) (db : Db F)
      → All
          (λ raw. (in_unit raw.confidence ≡ true) × (is_nil raw.raw_text ≡ false))
          e.applicability_conditions
      → ((v : ValidationOutput F) → agents.enrich v ≢ none)
      → ingest ref agents job e db ≢ none
  unfolding ingest finish
  ingest_total ref agents job e db h enriched =
      let (source_id, jurisdiction) = identity ref.shown job in
      elim (Option-cases (run ref.aliases ref.attribute_types e source_id jurisdiction)) [
        | inl d ↦ absurd (run_total ref.aliases ref.attribute_types e source_id jurisdiction h d)
        | inr (m, d) ↦ ground (arith, enriched (validation_of ref m))
      ]
