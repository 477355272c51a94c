-- ===== src/Ui/Corrections.antt =====
-- `hs_action` of ui/api/hs.py and `edge_action` of ui/api/relationships.py: corrections of a code and
-- of an edge. The unique keys of the two tables hold at the commit: an update that breaks one is
-- rolled back, and the response is a server error.
use compliance_wizard_engine.Prelude.{
  ℕ, Bool, ◌&&◌, not, Option, none, some, Text, text, any, is_nil, ◌==◌, nat_eq, text_eq,
  if◌then◌else◌, Floats,
}
use compliance_wizard_engine.Vocabulary.{
  manual, RelationType, amends, amended_by, references, supersedes, superseded_by, related,
  ReviewStatus, human_approved, rejected,
}
use compliance_wizard_engine.Store.{HsMap, Edge}
use compliance_wizard_engine.Relations.Resolver.{is_edge}
use compliance_wizard_engine.Hs.{same_key}
use compliance_wizard_engine.Ui.Tables.{
  Keyed, Response, ok, error, not_found, bad_request, server_error, get, update, delete,
}

pub record HsAction : Type 0 where
  pub action : Text
  pub chosen_code : Text
  pub reviewer : Text

pub record EdgeAction : Type 0 where
  pub action : Text
  pub relation_type : Text

-- The types that `correct` accepts; the column's CHECK refuses any other text.
unfoldable pub parse_relation_type : Text → Option RelationType
parse_relation_type t =
    if t == text "amends"
    then some amends
    else if t == text "amended_by"
    then some amended_by
    else if t == text "references"
    then some references
    else if t == text "supersedes"
    then some supersedes
    else if t == text "superseded_by"
    then some superseded_by
    else if t == text "related"
    then some related
    else none

module _ {F : Type 0} where
  module _ ⦃fl : Floats F⦄ where
    unfoldable pub decide_hs : HsAction → HsMap F → Response (HsMap F)
    decide_hs b h =
        if b.action == text "select" && not (is_nil b.chosen_code)
        then ok (record h {
          hs_code = b.chosen_code;
          match_type = manual;
          confidence = some (fl.milli 1000);
          review_status = human_approved;
        })
        else if b.action == text "approve"
        then ok (record h { review_status = human_approved })
        else if b.action == text "reject"
        then ok (record h { review_status = rejected })
        else error bad_request

    -- Another row than `id` has the key of the row `h`.
    unfoldable pub hs_clash : ℕ → HsMap F → Keyed (HsMap F) → Bool
    hs_clash id h table =
        any (λ row. not (row.0 == id) && same_key h.hs_code h.regulation_id row.1) table

    unfoldable pub hs_action :
        ℕ → HsAction → Keyed (HsMap F) → Keyed (HsMap F) × Response ReviewStatus
    unfolding decide_hs hs_clash
    hs_action id b table = elim (get id table) [
      | none ↦ (table, error not_found)
      | some h ↦ elim (decide_hs b h) [
        | error status ↦ (table, error status)
        | ok h' ↦ if hs_clash id h' table then (table, error server_error) else (
          update id (λ _. record h' { reviewer_id = some b.reviewer }) table,
          ok h'.review_status,
        )
      ]
    ]

  -- Another row than `id` is an edge of the same type between the same regulations.
  unfoldable pub edge_clash : ℕ → Edge F → Keyed (Edge F) → Bool
  edge_clash id e table =
      any
        (λ row. not (row.0 == id) && is_edge e.source_reg_id e.target_reg_id e.relation_type row.1)
        table

  -- The row of a correction, and its write.
  abbrev pub retyped : RelationType → Edge F → Edge F
  retyped t e = record e { relation_type = t }

  unfoldable pub edge_action :
      ℕ → EdgeAction → Keyed (Edge F) → Keyed (Edge F) × Response (Unit {0})
  unfolding parse_relation_type edge_clash
  edge_action id b table = elim (get id table) [
    | none ↦ (table, error not_found)
    | some e ↦
        if b.action == text "delete"
        then (delete id table, ok tt)
        else if b.action == text "correct" && not (is_nil b.relation_type)
        then elim (parse_relation_type b.relation_type) [
          | none ↦ (table, error server_error)
          | some t ↦
              if edge_clash id (retyped t e) table
              then (table, error server_error)
              else (update id (retyped t) table, ok tt)
        ]
        else (table, error bad_request)
  ]
