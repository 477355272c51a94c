-- ===== src/Ui/Decisions.antt =====
-- The review decisions of ui/api/review.py, ui/api/hs.py and ui/api/relationships.py: what each
-- action changes, and what it answers. `parse_uuid` is None where `UUID(text)` raises ValueError.
use compliance_wizard_engine.Prelude.{
  ℕ, ◌+◌, Bool, true, ◌&&◌, not, Option, none, some, [], ◌∷◌, Text, text, is_nil, ◌==◌, nat_eq,
  text_eq, if◌then◌else◌, Floats,
}
use compliance_wizard_engine.Vocabulary.{ReviewStatus, human_approved, rejected}
use compliance_wizard_engine.Store.{body, RegulationField, Condition}
use compliance_wizard_engine.Ui.Tables.{
  Keyed, Response, ok, error, not_found, bad_request, server_error, get, update,
}
use compliance_wizard_engine.Ui.Queue.{is_pending, confidence_of}

pub record FieldAction : Type 0 where
  pub action : Text
  pub value : Text
  pub body_id : Text
  pub note : Text
  pub reviewer : Text

pub record ConditionAction : Type 0 where
  pub action : Text
  pub parameter_name : Text
  pub raw_text : Text

-- `text or None`-like choices of the new text
abbrev pub note_of : Text → Option Text → Option Text
note_of new old = if is_nil new then old else some new

module _ {F : Type 0} where
  abbrev pub approved_field : RegulationField F → RegulationField F
  approved_field f = record f { review_status = human_approved }

  -- The branch `resolve`: a body that is not there leaves the row as it is.
  unfoldable pub resolve_field :
      (Text → Option ℕ)
      → Keyed Text
      → FieldAction
      → RegulationField F
      → Response (RegulationField F)
  resolve_field parse_uuid bodies b f = elim (parse_uuid b.body_id) [
    | none ↦ error server_error
    | some id ↦ elim (get id bodies) [
      | none ↦ ok f
      | some name ↦ ok (record f {
        value_text = none;
        value_json = some (body name (some id) true);
        review_status = human_approved;
      })
    ]
  ]

  -- The row after the branch of an action; an error where the source raises.
  unfoldable pub decide_field :
      (Text → Option ℕ)
      → Keyed Text
      → FieldAction
      → RegulationField F
      → Response (RegulationField F)
  unfolding resolve_field
  decide_field parse_uuid bodies b f =
      if b.action == text "approve"
      then ok (approved_field f)
      else if b.action == text "edit"
      then ok (record f {
        value_text = some b.value;
        value_json = none;
        review_status = human_approved;
      })
      else if b.action == text "resolve" && not (is_nil b.body_id)
      then resolve_field parse_uuid bodies b f
      else if b.action == text "reject"
      then ok (record f { review_status = rejected })
      else error bad_request

  abbrev pub signed_field : FieldAction → RegulationField F → RegulationField F
  signed_field b f = record f {
    reviewer_note = note_of b.note f.reviewer_note;
    reviewer_id = some b.reviewer;
  }

  unfoldable pub write_field :
      ℕ
      → FieldAction
      → Keyed (RegulationField F)
      → Response (RegulationField F)
      → Keyed (RegulationField F) × Response ReviewStatus
  write_field id b fields (error status) = (fields, error status)
  write_field id b fields (ok f) = (update id (λ _. signed_field b f) fields, ok f.review_status)

  -- `field_action`: the table after it, and the status in the response.
  unfoldable pub field_action :
      (Text → Option ℕ)
      → Keyed Text
      → ℕ
      → FieldAction
      → Keyed (RegulationField F)
      → Keyed (RegulationField F) × Response ReviewStatus
  unfolding decide_field write_field
  field_action parse_uuid bodies id b fields = elim (get id fields) [
    | none ↦ (fields, error not_found)
    | some f ↦ write_field id b fields (decide_field parse_uuid bodies b f)
  ]

  unfoldable pub decide_condition : ConditionAction → Condition F → Response (Condition F)
  decide_condition b c =
      if b.action == text "approve"
      then ok (record c { review_status = human_approved })
      else if b.action == text "edit"
      then ok (record c {
        parameter_name = note_of b.parameter_name c.parameter_name;
        raw_text = note_of b.raw_text c.raw_text;
        review_status = human_approved;
      })
      else if b.action == text "reject"
      then ok (record c { review_status = rejected })
      else error bad_request

  unfoldable pub condition_action :
      ℕ → ConditionAction → Keyed (Condition F) → Keyed (Condition F) × Response ReviewStatus
  unfolding decide_condition
  condition_action id b conds = elim (get id conds) [
    | none ↦ (conds, error not_found)
    | some c ↦ elim (decide_condition b c) [
      | error status ↦ (conds, error status)
      | ok c' ↦ (update id (λ _. c') conds, ok c'.review_status)
    ]
  ]

  module _ ⦃fl : Floats F⦄ where
    abbrev pub reaches : F → RegulationField F → Bool
    reaches limit f = is_pending f.review_status && fl.fle limit (confidence_of f.confidence)

    -- `bulk_approve`: the table after it, and the number of fields approved.
    unfoldable pub bulk_approve :
        F → Text → Keyed (RegulationField F) → Keyed (RegulationField F) × ℕ
    bulk_approve limit reviewer [] = ([], 0)
    bulk_approve limit reviewer ((id, f) ∷ fields) =
        let (rest, n) = bulk_approve limit reviewer fields in
        if reaches limit f
        then (
          (id, record f { review_status = human_approved; reviewer_id = some reviewer }) ∷ rest,
          n + 1,
        )
        else ((id, f) ∷ rest, n)
