-- ===== src/Ui/Examples.antt =====
-- A table of pending fields, and the theorems of Ui at work on it.
use mathlib.Core.List.{Perm}
use compliance_wizard_engine.Prelude.{
  ℕ, ◌+◌, ◌≡◌, refl, Option, none, some, List, [], ◌∷◌, map, Text, text, nat_beq_iff, IsSorted,
  thousandths, thousandths-IsOrdered, arith,
}
use compliance_wizard_engine.Vocabulary.{
  references, supersedes, superseded_by, related, inverse, relation_beq, IngestionStatus,
  RelationType, amends, amended_by, RelationSource, pending,
}
use compliance_wizard_engine.Store.{Regulation, RegulationField, Edge}
use compliance_wizard_engine.Relations.Mirrors.{IsMirrored}
use compliance_wizard_engine.Ui.Pagination.{pos, total_pages}
use compliance_wizard_engine.Ui.Tables.{Keyed, rows, get, having, HasKeys}
use compliance_wizard_engine.Ui.Queue.{Filters, is_pending, less_confident, review_queue}
use compliance_wizard_engine.Ui.QueuePages.{
  shown, item_key, Refers, waiting, review_queue_shows_all,
}
use compliance_wizard_engine.Ui.Decisions.{FieldAction, field_action, bulk_approve}
use compliance_wizard_engine.Ui.Decided.{Outcome, field_action-Outcome}
use compliance_wizard_engine.Ui.BulkApproved.{
  pending_count, is_short, approved_by, bulk_approve_lem,
}
use compliance_wizard_engine.Ui.Corrections.{EdgeAction, edge_action, edge_clash}
use compliance_wizard_engine.Ui.Unmirrored.{IsOnly, edge_delete_unmirrors}

abbrev pending_field : ℕ → RegulationField ℕ
pending_field confidence = record {
  regulation_id = 1;
  field_name = text "hs_code";
  value_text = some (text "8504");
  value_json = none;
  reference = none;
  confidence = some confidence;
  source_segment_index = none;
  review_status = pending;
  reviewer_note = none;
  reviewer_id = none;
}

abbrev fields : Keyed (RegulationField ℕ)
fields = (10, pending_field 900) ∷ (11, pending_field 600) ∷ []

abbrev regs : List Regulation
regs =
    record {
      id = 1;
      source_id = text "32014L0035";
      title = none;
      summary = none;
      jurisdiction = some (text "EU");
      document_type = none;
      publication_date = none;
      entry_into_force_date = none;
      oj_reference = none;
      file_path = none;
      ingestion_status = IngestionStatus.ingested;
      created_by = none;
    }
    ∷ []

-- A bulk approval from 0.8 approves the first of the two fields.
bulk_approved : (bulk_approve 800 (text "ana") fields).1 ≡ 1
unfolding bulk_approve
bulk_approved = refl

abbrev everything : Filters ℕ
everything = record { jurisdiction = []; min_conf = 0; max_conf = 1000 }

fields-Refers : Refers (λ f. f.regulation_id) regs fields
fields-Refers = (refl, (refl, tt))

review_queue_shows_all_example :
    let pages = total_pages (review_queue 700 regs fields [] everything (pos 1) (pos 1)).page in
    let all = shown 700 regs fields [] everything (pos 1) pages in
    Perm (map item_key all) (waiting everything regs fields []) × IsSorted less_confident all
review_queue_shows_all_example =
    review_queue_shows_all thousandths-IsOrdered 700 regs fields [] everything (pos 1) fields-Refers
      tt

abbrev reject : FieldAction
reject = record {
  action = text "reject";
  value = [];
  body_id = [];
  note = text "Not an HS code.";
  reviewer = text "ana";
}

-- No certification body is known here.
abbrev no_uuid : Text → Option ℕ
no_uuid t = none

field_action-Outcome_example :
    let (after, response) = field_action no_uuid [] 11 reject fields in
    Outcome no_uuid [] 11 reject fields after response
field_action-Outcome_example = field_action-Outcome no_uuid [] 11 reject fields

bulk_approve_lem_example :
    let (after, n) = bulk_approve 800 (text "ana") fields in
    (having (λ f. is_pending f.review_status) after ≡ having (is_short 800) fields)
    × (n + pending_count after ≡ pending_count fields)
    × (after ≡ map (λ row. (row.0, approved_by 800 (text "ana") row.1)) fields)
    × ((bulk_approve 800 (text "ana") after).1 ≡ 0)
bulk_approve_lem_example = bulk_approve_lem 800 (text "ana") fields

abbrev edge : ℕ → ℕ → RelationType → Edge ℕ
edge source target relation_type = record {
  source_reg_id = source;
  target_reg_id = target;
  relation_type = relation_type;
  reference = none;
  confidence = none;
  source = RelationSource.text_extracted;
}

abbrev edges : Keyed (Edge ℕ)
edges = (20, edge 1 2 amends) ∷ (21, edge 2 1 amended_by) ∷ []

abbrev drop_edge : EdgeAction
drop_edge = record { action = text "delete"; relation_type = [] }

edges-HasKeys : HasKeys edges
edges-HasKeys = (refl, (refl, tt))

edge_found : get 20 edges ≡ some (edge 1 2 amends)
unfolding get
edge_found = refl

edge-IsOnly : IsOnly 20 (edge 1 2 amends) edges
unfolding edge_clash
edge-IsOnly = refl

edges-IsMirrored : IsMirrored (rows edges)
unfolding inverse relation_beq
edges-IsMirrored a b amends h =
    grind (arith, nat_beq_iff 1 a, nat_beq_iff 2 b, nat_beq_iff 2 a, nat_beq_iff 1 b)
edges-IsMirrored a b amended_by h =
    grind (arith, nat_beq_iff 1 a, nat_beq_iff 2 b, nat_beq_iff 2 a, nat_beq_iff 1 b)
edges-IsMirrored a b references h =
    grind (arith, nat_beq_iff 1 a, nat_beq_iff 2 b, nat_beq_iff 2 a, nat_beq_iff 1 b)
edges-IsMirrored a b supersedes h =
    grind (arith, nat_beq_iff 1 a, nat_beq_iff 2 b, nat_beq_iff 2 a, nat_beq_iff 1 b)
edges-IsMirrored a b superseded_by h =
    grind (arith, nat_beq_iff 1 a, nat_beq_iff 2 b, nat_beq_iff 2 a, nat_beq_iff 1 b)
edges-IsMirrored a b related h =
    grind (arith, nat_beq_iff 1 a, nat_beq_iff 2 b, nat_beq_iff 2 a, nat_beq_iff 1 b)

edge_delete_unmirrors_example : ¬ IsMirrored (rows (edge_action 20 drop_edge edges).0)
edge_delete_unmirrors_example =
    edge_delete_unmirrors 20 drop_edge edges (edge 1 2 amends) edges-HasKeys edge_found edge-IsOnly
      (λ e. absurd (omega arith)) edges-IsMirrored refl
