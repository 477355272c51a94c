-- ===== src/Hs/Inferred.antt =====
-- `map_inferred_hs_codes` only adds rows, and what a later, coarser code does to an exact row.
use compliance_wizard_engine.Prelude.{
  ℕ, ◌+◌, ◌≤◌, ◌≡◌, refl, ◌∙◌, sym, true, false, ◌||◌, inl, inr, Bool-cases, Option, none, some,
  List, [], ◌∷◌, ◌++◌, Text, digits, take, length, any, All, contains, nat_eq, text_eq,
  text_beq_iff, ltb, Floats, arith,
}
use mathlib.Core.List.{append_assoc, append-nil}
use compliance_wizard_engine.Vocabulary.{fuzzy, inferred, pending, auto_approved}
use compliance_wizard_engine.Store.{HsMap}
use compliance_wizard_engine.Hs.{
  same_key, upsert, map_code, map_regulation_hs_codes, inferred_row, map_inferred_hs_codes,
}

module _ {F : Type 0} ⦃fl : Floats F⦄ where
  -- A row that inference may add for a regulation.
  abbrev pub IsProposal : ℕ → HsMap F → Type 0
  IsProposal reg row =
      (row.regulation_id ≡ reg)
      × (row.match_type ≡ inferred)
      × (row.review_status ≡ pending)
      × (6 ≤ length row.hs_code)

  -- Inference leaves every row as it was and in its place, adds only proposals that wait for review,
  -- and returns how many it added.
  pub map_inferred_hs_codes-adds :
      (reg : ℕ) (cands : List (Text × Option F)) (rows : List (HsMap F)) (n : ℕ)
      → (added : List (HsMap F)) × ((map_inferred_hs_codes reg cands rows n).0 ≡ rows ++ added)
        × ((map_inferred_hs_codes reg cands rows n).1 ≡ n + length added)
        × All (IsProposal reg) added
  unfolding map_inferred_hs_codes
  map_inferred_hs_codes-adds reg [] rows n = ([], sym (append-nil rows), omega arith, tt)
  map_inferred_hs_codes-adds reg ((raw, conf) ∷ cands) rows n =
      let code = digits raw in
      let row = inferred_row reg code conf in
      elim (Bool-cases (ltb (length code) 6 || any (same_key code reg) rows)) [
        | inl e ↦ rw (e, map_inferred_hs_codes) (map_inferred_hs_codes-adds reg cands rows n)
        | inr e ↦
            let rest = map_inferred_hs_codes-adds reg cands (rows ++ row ∷ []) (n + 1) in
            rw (e, map_inferred_hs_codes)
              (
                row ∷ rest.0,
                rest.1 ∙ append_assoc rows (row ∷ []) rest.0,
                omega (arith, rest.2),
                ((refl, refl, refl, ground arith), rest.3),
              )
      ]

  -- Starting from an empty table: two codes of one regulation with the same six digits, the first in the nomenclature and the
  -- second, longer one not: the second write turns the exact match into a fuzzy one, and leaves it
  -- approved, so that no reviewer sees it.
  pub exact_downgraded :
      (nom : List Text) (reg : ℕ) (raw longer : Text)
      → length (digits raw) ≡ 6
      → contains (digits raw) nom ≡ true
      → 6 ≤ length (digits longer)
      → take 6 (digits longer) ≡ digits raw
      → contains (digits longer) nom ≡ false
      → map_regulation_hs_codes nom reg (raw ∷ longer ∷ []) []
        ≡ record {
          hs_code = digits raw;
          regulation_id = reg;
          confidence = some (fl.milli 700);
          match_type = fuzzy;
          review_status = auto_approved;
          reviewer_id = none;
        }
          ∷ []
  unfolding map_regulation_hs_codes map_code upsert
  exact_downgraded nom reg raw longer six known long same unknown =
      ground (arith, text_beq_iff (digits raw) (digits raw))
