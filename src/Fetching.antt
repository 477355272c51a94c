-- ===== src/Fetching.antt =====
-- agents/fetch_agent.py: the metadata that EUR-Lex declares for a regulation. `http_get` is the client's
-- request: None where it raises, or where the status is an error. `as_date` is pydantic's reading of a
-- JSON value as a date: None where it refuses the value.
pub mod Refusals
pub mod Skipped
mod Examples
use compliance_wizard_engine.Prelude.{
  ℕ, Bool, true, false, ◌&&◌, Option, none, some, List, [], ◌∷◌, ◌++◌, Text, text, upper, has_part,
  ◌==◌, text_eq, if◌then◌else◌, Floats, ◌>>=◌,
}
use compliance_wizard_engine.Vocabulary.{RelationType}
use compliance_wizard_engine.Schemas.{ApiSourcedRelationship, FetchEnrichmentOutput, in_unit}
use compliance_wizard_engine.Extracting.Json.{
  Json, Cast, value, refused, overflowed, null, bool, number, string, array, object, Members,
  member_of, list_of, is_true, json_float,
}
use compliance_wizard_engine.Extracting.Parse.{iterated}
use compliance_wizard_engine.Ui.Corrections.{parse_relation_type}

-- A response with a good status: its content type, and its body as JSON, None where it is none.
pub record HttpResponse (F : Type 0) : Type 0 where
  pub content_type : Text
  pub json : Option (Json F)

-- A relationship of `_query`, of which pydantic has seen nothing yet.
pub record RawRelationship (F : Type 0) : Type 0 where
  pub target : Json F
  pub relation_type : Json F
  pub confidence : F

-- The dict that `_query` returns where the service has an answer.
pub record Meta (F : Type 0) : Type 0 where
  pub amendment_history : Option (Json F)
  pub publication_date : Option (Json F)
  pub entry_into_force_date : Option (Json F)
  pub oj_reference : Option (Json F)
  pub api_sourced_relationships : List (RawRelationship F)

-- Each element read, or None where one is refused.
unfoldable pub read_all : {A B : Type 0} → (A → Option B) → List A → Option (List B)
read_all read [] = some []
read_all read (x ∷ xs) = do y ← read x; ys ← read_all read xs; some (y ∷ ys)

module _ {F : Type 0} where
  -- pydantic's reading of a text, of a text or None, and of a list of texts
  unfoldable pub as_text : Json F → Option Text
  as_text (string s) = some s
  as_text _ = none

  unfoldable pub as_optional :
      {A : Type 0} → (Json F → Option A) → Option (Json F) → Option (Option A)
  as_optional read none = some none
  as_optional read (some null) = some none
  as_optional read (some x) = read x >>= λ a. some (some a)

  unfoldable pub as_texts : Option (Json F) → Option (List Text)
  unfolding as_text read_all list_of
  as_texts none = some []
  as_texts (some (array shown items)) = read_all as_text (list_of items)
  as_texts (some x) = none

  unfoldable pub as_relation_type : Json F → Option RelationType
  unfolding as_text parse_relation_type
  as_relation_type x = as_text x >>= parse_relation_type

module _ {F : Type 0} ⦃fl : Floats F⦄ where
  -- `float(r.get("confidence", 0.9))`
  unfoldable pub relationship_confidence : Members F → Option F
  unfolding member_of json_float
  relationship_confidence m = elim (member_of (text "confidence") m) [
    | none ↦ some (fl.milli 900)
    | some x ↦ elim (json_float x) [ value conf ↦ some conf | refused ↦ none | overflowed ↦ none ]
  ]

  abbrev raw_relationship : Members F → Json F → F → RawRelationship F
  raw_relationship m target conf = record {
    target = target;
    relation_type = elim (member_of (text "type") m) [
      | none ↦ string (text "references")
      | some x ↦ x
    ];
    confidence = conf;
  }

  -- The comprehension over `data.get("relationships", [])`.
  unfoldable pub raw_relationships : List (Json F) → Option (List (RawRelationship F))
  unfolding member_of is_true relationship_confidence
  raw_relationships [] = some []
  raw_relationships (object shown m ∷ items) =
      let rest = raw_relationships items in
      elim (member_of (text "target") m) [
        | none ↦ rest
        | some target ↦
            if is_true target
            then (relationship_confidence m >>= λ conf.
                rest >>= λ more. some (raw_relationship m target conf ∷ more))
            else rest
      ]
  raw_relationships (x ∷ items) = raw_relationships items

  unfoldable pub meta_of : Json F → Option (Meta F)
  unfolding member_of iterated raw_relationships
  meta_of (object shown m) = do
    items ← elim (member_of (text "relationships") m) [ none ↦ some [] | some x ↦ iterated x ]
    rels ← raw_relationships items
    some (record {
      amendment_history = member_of (text "amendment_history") m;
      publication_date = member_of (text "publication_date") m;
      entry_into_force_date = member_of (text "entry_into_force_date") m;
      oj_reference = member_of (text "oj_reference") m;
      api_sourced_relationships = rels;
    })
  meta_of _ = none

  -- `_query`: None where it raises, and None again for the empty dict.
  unfoldable pub query_api :
      (Text → Option (HttpResponse F)) → Text → Text → Option (Option (Meta F))
  unfolding meta_of
  query_api http_get base_url celex =
      http_get (base_url ++ (text "/legal-content/EN/ALL/?uri=CELEX:" ++ celex)) >>= λ resp.
      if has_part (text "json") resp.content_type
      then (resp.json >>= λ body. meta_of body >>= λ meta. some (some meta))
      else some none

  -- pydantic's check of a relationship
  unfoldable pub relationship_of : RawRelationship F → Option (ApiSourcedRelationship F)
  unfolding as_text as_relation_type
  relationship_of r = as_text r.target >>= λ target. as_relation_type r.relation_type >>= λ kind.
      (if in_unit r.confidence
        then some
            (record { target_source_id = target; relation_type = kind; confidence = r.confidence })
        else none)

  -- The construction of the output: None where pydantic raises ValidationError.
  unfoldable pub output_of : (Json F → Option ℕ) → Meta F → Option (FetchEnrichmentOutput F)
  unfolding as_texts as_optional as_text read_all relationship_of
  output_of as_date meta = do
    history ← as_texts meta.amendment_history
    published ← as_optional as_date meta.publication_date
    in_force ← as_optional as_date meta.entry_into_force_date
    reference ← as_optional as_text meta.oj_reference
    rels ← read_all relationship_of meta.api_sourced_relationships
    some (record {
      publication_date = published;
      entry_into_force_date = in_force;
      oj_reference = reference;
      api_sourced_relationships = rels;
      skipped = false;
    })

  abbrev pub skipped_output : FetchEnrichmentOutput F
  skipped_output = record {
    publication_date = none;
    entry_into_force_date = none;
    oj_reference = none;
    api_sourced_relationships = [];
    skipped = true;
  }

  -- `run`: only `_query` stands under `try`.
  unfoldable pub run :
      (Json F → Option ℕ)
      → (Text → Option (HttpResponse F))
      → Text
      → Text
      → Text
      → Option (FetchEnrichmentOutput F)
  unfolding query_api output_of
  run as_date http_get base_url source_id jurisdiction =
      if upper jurisdiction == text "EU"
      then elim (query_api http_get base_url source_id) [
        | none ↦ some skipped_output
        | some none ↦ some skipped_output
        | some (some meta) ↦ output_of as_date meta
      ]
      else some skipped_output
