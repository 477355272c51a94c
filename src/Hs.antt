-- ===== src/Hs.antt =====
-- engine/hs_mapper.py: regulation HS codes against the nomenclature, and the reverse query of the
-- wizard. `F` is the type of floats; the table hs_regulation_map is a list of rows.
pub mod Codes
pub mod Mapping
pub mod Inferred
pub mod Inference
pub mod Proposed
pub mod Search
mod Examples
use compliance_wizard_engine.Prelude.{
  ℕ, ◌+◌, Bool, ◌&&◌, ◌||◌, Option, none, some, List, [], ◌∷◌, ◌++◌, Text, digits, is_nil, text_or,
  starts_with, length, take, any, contains, leb, ltb, ◌==◌, if◌then◌else◌, or_else, Floats, nat_eq,
  text_eq,
}
use compliance_wizard_engine.Vocabulary.{
  MatchType, exact, fuzzy, inferred, ReviewStatus, pending, auto_approved,
}
use compliance_wizard_engine.Store.{HsMap}

pub record Candidate (F : Type 0) : Type 0 where
  pub regulation_id : ℕ
  pub confidence : F
  pub match_type : MatchType
  pub matched_code : Text
  pub hs_review_status : ReviewStatus

module _ {F : Type 0} ⦃fl : Floats F⦄ where
  -- the unique key of the constraint uq_hs_regulation
  abbrev pub same_key : Text → ℕ → HsMap F → Bool
  same_key code reg row = row.hs_code == code && row.regulation_id == reg

  -- INSERT ... ON CONFLICT ON CONSTRAINT uq_hs_regulation DO UPDATE confidence, match_type
  unfoldable pub upsert : List (HsMap F) → Text → ℕ → F → MatchType → ReviewStatus → List (HsMap F)
  upsert [] code reg conf mtype status =
      record {
        hs_code = code;
        regulation_id = reg;
        confidence = some conf;
        match_type = mtype;
        review_status = status;
        reviewer_id = none;
      }
      ∷ []
  upsert (row ∷ rows) code reg conf mtype status =
      let rest = upsert rows code reg conf mtype status in
      if same_key code reg row
      then record row { confidence = some conf; match_type = mtype } ∷ rows
      else row ∷ rest

  -- One round of the loop of `map_regulation_hs_codes`; `nomenclature` holds the known codes.
  unfoldable pub map_code : List Text → ℕ → Text → List (HsMap F) → List (HsMap F)
  unfolding upsert
  map_code nomenclature reg raw rows =
      let code = digits raw in
      let six = take 6 code in
      if ltb (length code) 6
      then upsert rows (text_or code raw) reg (fl.milli 300) fuzzy pending
      else if contains code nomenclature
      then upsert rows code reg (fl.milli 1000) exact auto_approved
      else if contains six nomenclature
      then upsert rows six reg (fl.milli 700) fuzzy pending
      else upsert rows code reg (fl.milli 300) fuzzy pending

  unfoldable pub map_regulation_hs_codes :
      List Text → ℕ → List Text → List (HsMap F) → List (HsMap F)
  unfolding map_code
  map_regulation_hs_codes nomenclature reg [] rows = rows
  map_regulation_hs_codes nomenclature reg (raw ∷ raws) rows =
      map_regulation_hs_codes nomenclature reg raws (map_code nomenclature reg raw rows)

  -- A candidate of `map_inferred_hs_codes` is its code and its confidence, if any is given.
  abbrev pub inferred_row : ℕ → Text → Option F → HsMap F
  inferred_row reg code conf = record {
    hs_code = code;
    regulation_id = reg;
    confidence = some (or_else conf (fl.milli 300));
    match_type = inferred;
    review_status = pending;
    reviewer_id = none;
  }

  -- The rows after the loop, and the number written.
  unfoldable pub map_inferred_hs_codes :
      ℕ → List (Text × Option F) → List (HsMap F) → ℕ → List (HsMap F) × ℕ
  map_inferred_hs_codes reg [] rows written = (rows, written)
  map_inferred_hs_codes reg ((raw, conf) ∷ cands) rows written =
      let code = digits raw in
      let skip = ltb (length code) 6 || any (same_key code reg) rows in
      map_inferred_hs_codes reg cands
        (if skip then rows else rows ++ inferred_row reg code conf ∷ [])
        (if skip then written else written + 1)

  -- Score a user code against a mapped code.
  unfoldable pub match_score : Text → Text → F → Option F
  match_score u code stored =
      if is_nil u || is_nil code
      then none
      else if u == code
      then some stored
      else if leb 6 (length u) && leb 6 (length code) && take 6 u == take 6 code
      then (if starts_with u code || starts_with code u
          then some (fl.mul stored (fl.milli 850))
          else some (fl.mul stored (fl.milli 700)))
      else none

  -- One row of the loop of `find_regulations_by_hs` for the regulation of the row: the dict `best`
  -- keeps its candidates in the order in which their regulations were first met.
  unfoldable pub keep_best : Candidate F → F → List (Candidate F) → List (Candidate F)
  keep_best cand score [] = cand ∷ []
  keep_best cand score (cur ∷ best) =
      let rest = keep_best cand score best in
      if cur.regulation_id == cand.regulation_id
      then (if fl.flt cur.confidence score then cand ∷ best else cur ∷ best)
      else cur ∷ rest

  abbrev pub candidate_of : HsMap F → F → Candidate F
  candidate_of row score = record {
    regulation_id = row.regulation_id;
    confidence = fl.round3 score;
    match_type = row.match_type;
    matched_code = row.hs_code;
    hs_review_status = row.review_status;
  }

  -- `_match_score(u, _digits(code), conf or 0.0)`
  abbrev pub row_score : Text → HsMap F → Option F
  row_score u row = match_score u (digits row.hs_code) (or_else row.confidence (fl.milli 0))

  abbrev pub next_best : Text → HsMap F → List (Candidate F) → List (Candidate F)
  next_best u row best = elim (row_score u row) [
    | none ↦ best
    | some score ↦ keep_best (candidate_of row score) score best
  ]

  unfoldable pub collect_best : Text → List (HsMap F) → List (Candidate F) → List (Candidate F)
  unfolding keep_best
  collect_best u [] best = best
  collect_best u (row ∷ rows) best = collect_best u rows (next_best u row best)

  unfoldable pub find_regulations_by_hs : Text → List (HsMap F) → List (Candidate F)
  unfolding collect_best
  find_regulations_by_hs hs_code rows = collect_best (digits hs_code) rows []
