-- ===== src/Ui/HsReview.antt =====
-- `hs_review` of ui/api/hs.py: the pending mappings with the codes of the same heading. The heading of a
-- stored code holds digits, so that LIKE compares it as it stands; timestamps are left out.
use compliance_wizard_engine.Prelude.{
  ℕ, Bool, true, false, ◌&&◌, ◌||◌, not, none, some, List, [], ◌∷◌, ◌++◌, map, Text, opt_text_or,
  starts_with, keep, take, length, leb, ◌==◌, nat_eq, sort, Floats,
}
use compliance_wizard_engine.Vocabulary.{MatchType}
use compliance_wizard_engine.Store.{Regulation, HsMap}
use compliance_wizard_engine.Ui.Pagination.{ℤ, pos, Page, clamp_per_page, build_page, page_of}
use compliance_wizard_engine.Ui.Tables.{Keyed, having}
use compliance_wizard_engine.Ui.Queue.{is_pending, confidence_of}

pub record HsRow (F : Type 0) : Type 0 where
  pub id : ℕ
  pub regulation : Text
  pub hs_code : Text
  pub confidence : F
  pub match_type : MatchType
  pub candidates : List (Text × Text)

pub record HsPage (F : Type 0) : Type 0 where
  pub rows : List (HsRow F)
  pub page : Page

-- A pending mapping with its id, and its regulation.
pub record PendingMap (F : Type 0) : Type 0 where
  pub id : ℕ
  pub mapping : HsMap F
  pub regulation : Regulation

abbrev pub pending_maps : {F : Type 0} → Keyed (HsMap F) → Keyed (HsMap F)
pending_maps table = having (λ h. is_pending h.review_status) table

-- The regulation of a mapping.
abbrev pub regulation_of : {F : Type 0} → List Regulation → HsMap F → List Regulation
regulation_of regs h = keep (λ r. r.id == h.regulation_id) regs

-- The join with the regulations.
unfoldable pub joined_maps : {F : Type 0} → List Regulation → Keyed (HsMap F) → List (PendingMap F)
joined_maps regs [] = []
joined_maps regs ((id, h) ∷ table) =
    map (λ r. record { id = id; mapping = h; regulation = r }) (regulation_of regs h)
    ++ joined_maps regs table

-- `LIKE heading%`, at most ten
unfoldable pub candidate_codes : List (Text × Text) → Text → List (Text × Text)
unfolding starts_with
candidate_codes nomenclature code = take 10 (keep (λ n. starts_with n.0 (take 6 code)) nomenclature)

module _ {F : Type 0} ⦃fl : Floats F⦄ where
  -- ORDER BY confidence, id: a missing confidence comes last.
  unfoldable pub ordered : PendingMap F → PendingMap F → Bool
  ordered a b = elim a.mapping.confidence [
    | none ↦ elim b.mapping.confidence [ none ↦ leb a.id b.id | some y ↦ false ]
    | some x ↦ elim b.mapping.confidence [
      | none ↦ true
      | some y ↦ fl.flt x y || not (fl.flt y x) && leb a.id b.id
    ]
  ]

  unfoldable pub hs_row : List (Text × Text) → PendingMap F → HsRow F
  unfolding candidate_codes
  hs_row nomenclature p = record {
    id = p.id;
    regulation = opt_text_or p.regulation.title p.regulation.source_id;
    hs_code = p.mapping.hs_code;
    confidence = confidence_of p.mapping.confidence;
    match_type = p.mapping.match_type;
    candidates = candidate_codes nomenclature p.mapping.hs_code;
  }

  unfoldable pub ordered_maps : List Regulation → Keyed (HsMap F) → List (PendingMap F)
  unfolding ordered joined_maps
  ordered_maps regs table = sort ordered (joined_maps regs (pending_maps table))

  unfoldable pub hs_review :
      List (Text × Text) → List Regulation → Keyed (HsMap F) → ℤ → ℤ → HsPage F
  unfolding ordered_maps hs_row
  hs_review nomenclature regs table page per_page =
      let pg = build_page page (pos (clamp_per_page per_page)) (length (pending_maps table)) in
      record { rows = map (hs_row nomenclature) (page_of pg (ordered_maps regs table)); page = pg }
