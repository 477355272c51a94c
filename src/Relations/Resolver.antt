-- ===== src/Relations/Resolver.antt =====
-- `resolve_relationships` of engine/relationship_resolver.py: the regulations, with stubs for those
-- that are only mentioned, and the edges, each with its inverse.
use compliance_wizard_engine.Prelude.{
  ℕ, suc, Bool, true, false, ◌&&◌, none, some, List, [], ◌∷◌, ◌++◌, Text, text, any, find, is_nil,
  ◌==◌, nat_eq, text_eq, if◌then◌else◌, Floats,
}
use compliance_wizard_engine.Vocabulary.{
  RelationType, amends, supersedes, references, inverse, relation_beq, RelationSource,
  text_extracted, api_sourced, IngestionStatus,
}
use compliance_wizard_engine.Store.{Regulation, Edge}
use compliance_wizard_engine.Schemas.{ApiSourcedRelationship}
use compliance_wizard_engine.Relations.Identifiers.{normalize_identifier}
use compliance_wizard_engine.Relations.Walks.{path_exists}

-- The two tables that the resolver writes. `fresh` stands for gen_random_uuid: no regulation has it.
pub record Graph (F : Type 0) : Type 0 where
  pub regulations : List Regulation
  pub edges : List (Edge F)
  pub fresh : ℕ

abbrev pub stub_of : ℕ → Text → Regulation
stub_of id source_id = record {
  id = id;
  source_id = source_id;
  title = none;
  summary = none;
  jurisdiction = none;
  document_type = none;
  publication_date = none;
  entry_into_force_date = none;
  oj_reference = none;
  file_path = none;
  ingestion_status = IngestionStatus.stub;
  created_by = some (text "resolution_engine");
}

-- The unique key of uq_relationship_edge.
abbrev pub is_edge : {F : Type 0} → ℕ → ℕ → RelationType → Edge F → Bool
is_edge a b t e = e.source_reg_id == a && e.target_reg_id == b && relation_beq t e.relation_type

-- The relation types that the cycle guard looks at.
unfoldable pub is_guarded : RelationType → Bool
is_guarded supersedes = true
is_guarded amends = true
is_guarded _ = false

module _ {F : Type 0} where
  abbrev pub has_edge : List (Edge F) → ℕ → ℕ → RelationType → Bool
  has_edge edges a b t = any (is_edge a b t) edges

  -- INSERT ... ON CONFLICT DO NOTHING
  unfoldable pub insert_edge : List (Edge F) → Edge F → List (Edge F)
  insert_edge edges e =
      if has_edge edges e.source_reg_id e.target_reg_id e.relation_type
      then edges
      else edges ++ e ∷ []

  abbrev pub edge_of : ℕ → ℕ → RelationType → Text → F → RelationSource → Edge F
  edge_of src tgt rtype reference confidence source = record {
    source_reg_id = src;
    target_reg_id = tgt;
    relation_type = rtype;
    reference = some reference;
    confidence = some confidence;
    source = source;
  }

  unfoldable pub write_edge :
      List (Edge F) → ℕ → ℕ → RelationType → Text → F → RelationSource → List (Edge F)
  unfolding insert_edge is_guarded
  write_edge edges src tgt rtype reference confidence source =
      if is_guarded rtype && path_exists edges tgt src rtype
      then edges
      else insert_edge (insert_edge edges (edge_of src tgt rtype reference confidence source))
          (edge_of tgt src (inverse rtype) reference confidence source)

  -- The regulation of a source id, created as a stub if there is none.
  unfoldable pub get_or_create_stub : Graph F → Text → Graph F × ℕ
  get_or_create_stub g source_id = elim (find (λ r. r.source_id == source_id) g.regulations) [
    | some reg ↦ (g, reg.id)
    | none ↦ (
      record g {
        regulations = g.regulations ++ stub_of g.fresh source_id ∷ [];
        fresh = suc g.fresh;
      },
      g.fresh,
    )
  ]

  -- One round of either loop: a stub and an edge, but for a self-reference.
  unfoldable pub relate :
      ℕ → Text → Text → RelationType → Text → F → RelationSource → Graph F → Graph F
  unfolding get_or_create_stub write_edge
  relate id source_sid target_sid rtype reference confidence source g =
      if target_sid == source_sid
      then g
      else let (g', target) = get_or_create_stub g target_sid in
        record g' { edges = write_edge g'.edges id target rtype reference confidence source }

  module _ ⦃fl : Floats F⦄ where
    unfoldable pub resolve_mentions : ℕ → Text → List Text → Graph F → Graph F
    resolve_mentions id source_sid [] g = g
    resolve_mentions id source_sid (mention ∷ mentions) g =
        resolve_mentions id source_sid mentions (
          relate id source_sid (normalize_identifier mention) references mention (fl.milli 500)
            text_extracted g)

    -- `not target_sid or target_sid == source_sid` skips a relationship.
    unfoldable pub resolve_api : ℕ → Text → List (ApiSourcedRelationship F) → Graph F → Graph F
    resolve_api id source_sid [] g = g
    resolve_api id source_sid (rel ∷ rels) g =
        let target_sid = normalize_identifier rel.target_source_id in
        resolve_api id source_sid rels (
          if is_nil target_sid
          then g
          else relate id source_sid target_sid rel.relation_type (text "api") rel.confidence
              api_sourced g)

    unfoldable pub resolve_relationships :
        ℕ → List Text → List (ApiSourcedRelationship F) → Graph F → Graph F
    unfolding resolve_mentions resolve_api
    resolve_relationships id mentions rels g = elim (find (λ r. r.id == id) g.regulations) [
      | none ↦ g
      | some source ↦
          resolve_api id source.source_id rels (resolve_mentions id source.source_id mentions g)
    ]
