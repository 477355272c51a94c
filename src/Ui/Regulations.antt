-- ===== src/Ui/Regulations.antt =====
-- ui/api/regulations.py: the list of regulations with the counts of their rows, and the record of one
-- regulation with its fields grouped by name. The column `created_at` is an argument; `shown` is `str`
-- of a regulation's id.
use compliance_wizard_engine.Prelude.{
  ℕ, Bool, true, false, ◌||◌, not, Option, none, some, List, [], ◌∷◌, ◌++◌, map, Text, opt_text_or,
  text_leb, keep, find, length, leb, ◌==◌, nat_eq, text_eq, if◌then◌else◌, sort, Floats,
}
use compliance_wizard_engine.Vocabulary.{
  RelationType, RelationSource, MatchType, ReviewStatus, pending, auto_approved, human_approved,
  rejected, IngestionStatus,
}
use compliance_wizard_engine.Store.{Regulation, RegulationField, Condition, HsMap, Edge}
use compliance_wizard_engine.Ui.Pagination.{ℤ, pos, Page, clamp_per_page, build_page, page_of}
use compliance_wizard_engine.Ui.Tables.{Response, ok, error, not_found}
use compliance_wizard_engine.Ui.ReviewHelpers.{display_value}
use compliance_wizard_engine.Ui.Queue.{confidence_of}

pub record RegulationRow : Type 0 where
  pub id : ℕ
  pub source_id : Text
  pub title : Text
  pub document_type : Text
  pub jurisdiction : Text
  pub status : IngestionStatus
  pub fields : ℕ
  pub conditions : ℕ
  pub relationships : ℕ

pub record RegulationsPage : Type 0 where
  pub rows : List RegulationRow
  pub page : Page

abbrev pub is_stub : IngestionStatus → Bool
is_stub IngestionStatus.stub = true
is_stub _ = false

abbrev pub is_listed : Bool → Regulation → Bool
is_listed include_stubs r = include_stubs || not (is_stub r.ingestion_status)

-- ORDER BY created_at DESC, without the stubs unless they are asked for
unfoldable pub listed_regulations : (Regulation → ℕ) → Bool → List Regulation → List Regulation
listed_regulations created_at include_stubs regs =
    sort (λ a b. leb (created_at b) (created_at a)) (keep (is_listed include_stubs) regs)

module _ {F : Type 0} where
  -- A row with its three correlated counts.
  unfoldable pub regulation_row :
      List (RegulationField F) → List (Condition F) → List (Edge F) → Regulation → RegulationRow
  regulation_row fields conds edges r = record {
    id = r.id;
    source_id = r.source_id;
    title = opt_text_or r.title [];
    document_type = opt_text_or r.document_type [];
    jurisdiction = opt_text_or r.jurisdiction [];
    status = r.ingestion_status;
    fields = length (keep (λ f. f.regulation_id == r.id) fields);
    conditions = length (keep (λ c. c.regulation_id == r.id) conds);
    relationships = length (keep (λ e. e.source_reg_id == r.id) edges);
  }

  unfoldable pub list_regulations :
      (Regulation → ℕ)
      → List Regulation
      → List (RegulationField F)
      → List (Condition F)
      → List (Edge F)
      → ℤ
      → ℤ
      → Bool
      → RegulationsPage
  unfolding listed_regulations regulation_row
  list_regulations created_at regs fields conds edges page per_page include_stubs =
      let pg =
        build_page page (pos (clamp_per_page per_page))
          (length (keep (is_listed include_stubs) regs)) in
      record {
        rows =
            map (regulation_row fields conds edges)
              (page_of pg (listed_regulations created_at include_stubs regs));
        page = pg;
      }

-- A field of the record.
pub record Entry (F : Type 0) : Type 0 where
  pub field_name : Text
  pub value : Text
  pub reference : Text
  pub confidence : F
  pub review_status : ReviewStatus
  pub segment : Option ℕ

-- The status of a group: the one that its entries share, or "k pending / n".
pub data GroupStatus : Type 0 where
  uniform : ReviewStatus → GroupStatus
  mixed : (pending : ℕ) → (count : ℕ) → GroupStatus

-- A group, its first entry apart: no group is empty.
pub record Group (F : Type 0) : Type 0 where
  pub field_name : Text
  pub first : Entry F
  pub others : List (Entry F)

pub record FieldGroup (F : Type 0) : Type 0 where
  pub field_name : Text
  pub count : ℕ
  pub entries : List (Entry F)
  pub min_conf : F
  pub status : GroupStatus

abbrev pub same_review : ReviewStatus → ReviewStatus → Bool
same_review pending pending = true
same_review auto_approved auto_approved = true
same_review human_approved human_approved = true
same_review rejected rejected = true
same_review _ _ = false

module _ {F : Type 0} where
  abbrev pub entries_of : Group F → List (Entry F)
  entries_of g = g.first ∷ g.others

  -- `grouped.setdefault(f["field_name"], []).append(f)`
  unfoldable pub add_entry : Entry F → List (Group F) → List (Group F)
  add_entry e [] = record { field_name = e.field_name; first = e; others = [] } ∷ []
  add_entry e (g ∷ groups) =
      let rest = add_entry e groups in
      if g.field_name == e.field_name
      then record g { others = g.others ++ e ∷ [] } ∷ groups
      else g ∷ rest

  -- The loop over the fields.
  unfoldable pub grouped_into : List (Group F) → List (Entry F) → List (Group F)
  unfolding add_entry
  grouped_into groups [] = groups
  grouped_into groups (e ∷ entries) = grouped_into (add_entry e groups) entries

  abbrev pub is_unapproved : Entry F → Bool
  is_unapproved e = not (same_review e.review_status auto_approved)

  unfoldable pub group_status : Group F → GroupStatus
  group_status g =
      if length (keep (λ e. same_review g.first.review_status e.review_status) (entries_of g))
        == length (entries_of g)
      then uniform g.first.review_status
      else mixed (length (keep is_unapproved (entries_of g))) (length (entries_of g))

-- The source id of a target, or its id if there is no such regulation.
unfoldable pub target_name : (ℕ → Text) → List Regulation → ℕ → Text
target_name shown regs id = elim (find (λ r. r.id == id) regs) [
  | none ↦ shown id
  | some r ↦ r.source_id
]

pub record RegulationDetail (F : Type 0) : Type 0 where
  pub reg : Regulation
  pub field_groups : List (FieldGroup F)
  pub total_fields : ℕ
  pub conditions : List (Condition F)
  pub relationships : List (RelationType × Text × RelationSource × F)
  pub hs : List (Text × MatchType × F × ReviewStatus)

module _ {F : Type 0} ⦃fl : Floats F⦄ where
  -- `min(it["confidence"] for it in items)`
  unfoldable pub lowest : F → List (Entry F) → F
  lowest x [] = x
  lowest x (e ∷ entries) = lowest (if fl.flt e.confidence x then e.confidence else x) entries

  unfoldable pub field_group : Group F → FieldGroup F
  unfolding lowest group_status
  field_group g = record {
    field_name = g.field_name;
    count = length (entries_of g);
    entries = entries_of g;
    min_conf = lowest g.first.confidence g.others;
    status = group_status g;
  }

  unfoldable pub entry_of : RegulationField F → Entry F
  unfolding display_value
  entry_of f = record {
    field_name = f.field_name;
    value = display_value f;
    reference = opt_text_or f.reference [];
    confidence = confidence_of f.confidence;
    review_status = f.review_status;
    segment = f.source_segment_index;
  }

  -- The fields of a regulation, ORDER BY field_name.
  unfoldable pub entries_for : ℕ → List (RegulationField F) → List (Entry F)
  unfolding entry_of text_leb
  entries_for reg fields =
      map entry_of (
        sort (λ a b. text_leb a.field_name b.field_name)
          (keep (λ f. f.regulation_id == reg) fields))

  -- The relationships of the record: type, target, source and confidence.
  unfoldable pub relationships_for :
      (ℕ → Text)
      → List Regulation
      → ℕ
      → List (Edge F)
      → List (RelationType × Text × RelationSource × F)
  unfolding target_name
  relationships_for shown regs reg edges =
      map
        (λ e. (
          e.relation_type,
          target_name shown regs e.target_reg_id,
          e.source,
          confidence_of e.confidence,
        ))
        (keep (λ e. e.source_reg_id == reg) edges)

  unfoldable pub hs_for : ℕ → List (HsMap F) → List (Text × MatchType × F × ReviewStatus)
  hs_for reg table =
      map (λ h. (h.hs_code, h.match_type, confidence_of h.confidence, h.review_status))
        (keep (λ h. h.regulation_id == reg) table)

  unfoldable pub get_regulation :
      (ℕ → Text)
      → List Regulation
      → List (RegulationField F)
      → List (Condition F)
      → List (Edge F)
      → List (HsMap F)
      → ℕ
      → Response (RegulationDetail F)
  unfolding entries_for grouped_into field_group relationships_for hs_for
  get_regulation shown regs fields conds edges hs id = elim (find (λ r. r.id == id) regs) [
    | none ↦ error not_found
    | some r ↦ ok (record {
      reg = r;
      field_groups = map field_group (grouped_into [] (entries_for id fields));
      total_fields = length (entries_for id fields);
      conditions = keep (λ c. c.regulation_id == id) conds;
      relationships = relationships_for shown regs id edges;
      hs = hs_for id hs;
    })
  ]
