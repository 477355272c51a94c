-- ===== src/Ui/Queue.antt =====
-- `review_queue` of ui/api/review.py: the pending fields and conditions, the least confident first.
-- Timestamps are left out of the items.
use compliance_wizard_engine.Prelude.{
  ℕ, Bool, true, false, ◌&&◌, ◌||◌, Option, List, [], ◌∷◌, ◌++◌, map, Text, text, is_nil, keep,
  length, or_else, opt_text_or, ◌==◌, nat_eq, text_eq, if◌then◌else◌, sort, Floats,
}
use compliance_wizard_engine.Vocabulary.{ReviewStatus, pending}
use compliance_wizard_engine.Store.{Regulation, RegulationField, Condition}
use compliance_wizard_engine.Ui.Pagination.{ℤ, pos, Page, clamp_per_page, build_page, page_of}
use compliance_wizard_engine.Ui.Tables.{Keyed}
use compliance_wizard_engine.Ui.ReviewHelpers.{
  type_label, reason_label, derive_field_reason, derive_condition_reason, display_value,
  condition_summary,
}

pub data Kind : Type 0 where
  field condition : Kind

pub record QueueItem (F : Type 0) : Type 0 where
  pub kind : Kind
  pub label : Text
  pub id : ℕ
  pub regulation : Text
  pub jurisdiction : Text
  pub name : Text
  pub value : Text
  pub confidence : F
  pub reason : Text
  pub reason_label : Text

abbrev pub is_pending : ReviewStatus → Bool
is_pending pending = true
is_pending _ = false

-- The request's filters.
pub record Filters (F : Type 0) : Type 0 where
  pub jurisdiction : Text
  pub min_conf : F
  pub max_conf : F

pub record QueuePage (F : Type 0) : Type 0 where
  pub items : List (QueueItem F)
  pub page : Page

module _ {F : Type 0} ⦃fl : Floats F⦄ where
  -- `row.confidence or 0.0`
  abbrev pub confidence_of : Option F → F
  confidence_of conf = or_else conf (fl.milli 0)

  -- The regulation that a row joins with, under the filter on the jurisdiction.
  unfoldable pub joined_with : Filters F → ℕ → List Regulation → List Regulation
  joined_with filters reg regs =
      keep
        (λ r.
          r.id == reg
          && (is_nil filters.jurisdiction || opt_text_or r.jurisdiction [] == filters.jurisdiction))
        regs

  abbrev pub in_range : Filters F → Option F → Bool
  in_range filters conf =
      fl.fle filters.min_conf (confidence_of conf) && fl.fle (confidence_of conf) filters.max_conf

  unfoldable pub field_item : F → ℕ → RegulationField F → Regulation → QueueItem F
  unfolding type_label reason_label derive_field_reason display_value
  field_item threshold id f reg =
      let reason = derive_field_reason threshold f in
      record {
        kind = Kind.field;
        label = type_label (text "field");
        id = id;
        regulation = opt_text_or reg.title reg.source_id;
        jurisdiction = opt_text_or reg.jurisdiction [];
        name = f.field_name;
        value = display_value f;
        confidence = confidence_of f.confidence;
        reason = reason;
        reason_label = reason_label reason;
      }

  unfoldable pub condition_item : F → ℕ → Condition F → Regulation → QueueItem F
  unfolding type_label reason_label derive_condition_reason condition_summary
  condition_item threshold id c reg =
      let reason = derive_condition_reason threshold c in
      record {
        kind = Kind.condition;
        label = type_label (text "condition");
        id = id;
        regulation = opt_text_or reg.title reg.source_id;
        jurisdiction = opt_text_or reg.jurisdiction [];
        name = opt_text_or c.parameter_name (text "(raw)");
        value = condition_summary c;
        confidence = confidence_of c.confidence;
        reason = reason;
        reason_label = reason_label reason;
      }

  -- The two loops over the pending rows.
  unfoldable pub field_items :
      F → Filters F → List Regulation → Keyed (RegulationField F) → List (QueueItem F)
  unfolding joined_with field_item
  field_items threshold filters regs [] = []
  field_items threshold filters regs ((id, f) ∷ fields) =
      (if is_pending f.review_status && in_range filters f.confidence
        then map (field_item threshold id f) (joined_with filters f.regulation_id regs)
        else [])
      ++ field_items threshold filters regs fields

  unfoldable pub condition_items :
      F → Filters F → List Regulation → Keyed (Condition F) → List (QueueItem F)
  unfolding joined_with condition_item
  condition_items threshold filters regs [] = []
  condition_items threshold filters regs ((id, c) ∷ conds) =
      (if is_pending c.review_status && in_range filters c.confidence
        then map (condition_item threshold id c) (joined_with filters c.regulation_id regs)
        else [])
      ++ condition_items threshold filters regs conds

  -- `items.sort(key=lambda i: i["confidence"])`
  abbrev pub less_confident : QueueItem F → QueueItem F → Bool
  less_confident a b = fl.fle a.confidence b.confidence

  -- All items, before the page is cut out.
  unfoldable pub queue_items :
      F
      → Filters F
      → List Regulation
      → Keyed (RegulationField F)
      → Keyed (Condition F)
      → List (QueueItem F)
  unfolding field_items condition_items
  queue_items threshold filters regs fields conds =
      sort less_confident
        (field_items threshold filters regs fields ++ condition_items threshold filters regs conds)

  unfoldable pub review_queue :
      F
      → List Regulation
      → Keyed (RegulationField F)
      → Keyed (Condition F)
      → Filters F
      → ℤ
      → ℤ
      → QueuePage F
  unfolding queue_items
  review_queue threshold regs fields conds filters page per_page =
      let items = queue_items threshold filters regs fields conds in
      let pg = build_page page (pos (clamp_per_page per_page)) (length items) in
      record { items = page_of pg items; page = pg }
