-- ===== src/Hs/Examples.antt =====
-- Sample rows of hs_regulation_map, runs on them, and the theorems of Hs at work on them.
use compliance_wizard_engine.Prelude.{
  ℕ, text_beq, starts_with, ◌≡◌, ◌≤◌, refl, true, ◌&&◌, none, some, List, [], ◌∷◌, Text, text,
  digits, is_some, length, any, ◌==◌, nat_eq, thousandths, thousandths-IsOrdered, arith,
}
use compliance_wizard_engine.Prelude.{Option, Ensures, joined, strip, is_space, clamp}
use compliance_wizard_engine.Extracting.Json.{
  value, refused, number, Json, string, array, object, nil, item, end, member, list_of, member_of,
  members_of, shown_json, text_at, json_float,
}
use compliance_wizard_engine.Hs.Inference.{
  context_of, code_six, proposed_confidence, capped, candidates, proposals, infer_hs_codes,
}
use compliance_wizard_engine.Hs.Proposed.{AreCandidates, infer_hs_codes-AreCandidates}
use compliance_wizard_engine.Vocabulary.{exact, fuzzy, auto_approved, human_approved}
use compliance_wizard_engine.Store.{HsMap}
use compliance_wizard_engine.Hs.{
  map_regulation_hs_codes, find_regulations_by_hs, match_score, row_score,
}
use compliance_wizard_engine.Hs.Mapping.{decision_at, map_regulation_hs_codes_keeps_decisions}
use compliance_wizard_engine.Hs.Inferred.{exact_downgraded}
use compliance_wizard_engine.Hs.Search.{has_regulation, IsDistinct, find_regulations_by_hs_complete}

abbrev known : List Text
known = text "850440" ∷ text "850450" ∷ []

-- Regulation 1 has an approved exact row, regulation 2 one that a reviewer approved.
abbrev rows : List (HsMap ℕ)
rows =
    record {
      hs_code = text "850440";
      regulation_id = 1;
      confidence = some 1000;
      match_type = exact;
      review_status = auto_approved;
      reviewer_id = none;
    }
    ∷ record {
      hs_code = text "850440";
      regulation_id = 2;
      confidence = some 700;
      match_type = fuzzy;
      review_status = human_approved;
      reviewer_id = some (text "ana");
    }
    ∷ []

-- Both regulations answer for a longer code, at 0.85 of their confidence.
search_longer :
    find_regulations_by_hs (text "8504.40.30") rows
    ≡ record {
      regulation_id = 1;
      confidence = 850;
      match_type = exact;
      matched_code = text "850440";
      hs_review_status = auto_approved;
    }
      ∷ record {
        regulation_id = 2;
        confidence = 595;
        match_type = fuzzy;
        matched_code = text "850440";
        hs_review_status = human_approved;
      }
      ∷ []
unfolding find_regulations_by_hs match_score digits text_beq starts_with
search_longer = refl

keeps_decisions_example :
    decision_at
      (text "850440")
      2
      (map_regulation_hs_codes known 2 (text "8504 40" ∷ text "85044099" ∷ []) rows)
    ≡ some (human_approved, some (text "ana"))
unfolding decision_at text_beq
keeps_decisions_example =
    map_regulation_hs_codes_keeps_decisions known 2 (text "8504 40" ∷ text "85044099" ∷ []) rows
      (text "850440") 2 (human_approved, some (text "ana")) refl

exact_downgraded_example :
    map_regulation_hs_codes {F = ℕ} known 4 (text "850440" ∷ text "85044099" ∷ []) []
    ≡ record {
      hs_code = digits (text "850440");
      regulation_id = 4;
      confidence = some 700;
      match_type = fuzzy;
      review_status = auto_approved;
      reviewer_id = none;
    }
      ∷ []
unfolding digits text_beq
exact_downgraded_example =
    let long : length (digits (text "85044099")) ≡ 8 = refl in
    exact_downgraded known 4 (text "850440") (text "85044099") refl refl (omega (arith, long)) refl
      refl

find_complete_example :
    ((r : ℕ)
      → has_regulation r (find_regulations_by_hs (text "85044030") rows)
        ≡ any
            (λ row. is_some (row_score (digits (text "85044030")) row) && row.regulation_id == r)
            rows)
    × IsDistinct (find_regulations_by_hs (text "85044030") rows)
find_complete_example = find_regulations_by_hs_complete (text "85044030") rows

-- The model proposes a known code, the same again, and one that is not in the nomenclature.
abbrev proposal : Text → Json ℕ
proposal code = object [] (
    member (text "code") (string code)
      (member (text "confidence") (number (value 900) refused [] true) end))

abbrev ask : Text → Option (Option (Json ℕ))
ask context = some (
    some (
      object [] (
        member (text "hs_codes")
          (array [] (
            item (proposal (text "8504.40"))
              (item (proposal (text "850440")) (item (proposal (text "999999")) nil))))
          end)))

inferred_once :
    infer_hs_codes ask known 5 (text "Converters") none ≡ some ((text "850440", 600) ∷ [])
unfolding infer_hs_codes context_of joined members_of proposals candidates code_six
    proposed_confidence capped member_of list_of text_at shown_json json_float digits text_beq strip
    is_space clamp
inferred_once = refl

infer_hs_codes-AreCandidates_example :
    Ensures
      (λ cands. AreCandidates thousandths-IsOrdered known 5 [] cands × (length cands ≤ 5))
      (infer_hs_codes ask known 5 (text "Converters") none)
infer_hs_codes-AreCandidates_example =
    infer_hs_codes-AreCandidates thousandths-IsOrdered known 5 ask (text "Converters") none
      (omega arith)
