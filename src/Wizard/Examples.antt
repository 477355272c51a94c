-- ===== src/Wizard/Examples.antt =====
-- A small catalogue, queries on it, and the theorems of Wizard at work on them.
use mathlib.Core.List.{Perm}
use compliance_wizard_engine.Prelude.{
  ℕ, ◌≡◌, ◌≢◌, ◌↔◌, refl, true, false, Option, none, some, List, [], ◌∷◌, Text, sort, dedup, text,
  text_beq, starts_with, digits, is_empty, All, Any, thousandths, thousandths-IsOrdered,
}
use compliance_wizard_engine.Vocabulary.{
  inclusion, exclusion, lte, eq, exact, auto_approved, IngestionStatus,
}
use compliance_wizard_engine.Store.{Regulation, Condition, Edge, HsMap}
use compliance_wizard_engine.Hs.{find_regulations_by_hs, match_score}
use compliance_wizard_engine.Wizard.Evaluation.{Attributes, number, bool, attribute, evaluate}
use compliance_wizard_engine.Wizard.Results.{
  applies, excluded, WizardResult, decide_status, evaluate_regulation, evaluate_all, query,
}
use compliance_wizard_engine.Wizard.Decisions.{
  Blocks, Supports, IsNamed, IsEvaluated, excluded_iff, applies_iff, silence_decides_nothing,
}
use compliance_wizard_engine.Wizard.Ranking.{
  candidate_ids, result_ids, IsWellFormed, query-perm, query-IsWellFormed,
}

abbrev directive : ℕ → Text → Regulation
directive id source_id = record {
  id = id;
  source_id = source_id;
  title = none;
  summary = none;
  jurisdiction = some (text "EU");
  document_type = none;
  publication_date = none;
  entry_into_force_date = none;
  oj_reference = none;
  file_path = none;
  ingestion_status = IngestionStatus.ingested;
  created_by = none;
}

abbrev regs : List Regulation
regs = directive 1 (text "32014L0035") ∷ directive 2 (text "32014L0034") ∷ []

-- Regulation 1 is for at most 1000 volts; regulation 2 is not for medical devices.
abbrev at_most_volts : Condition ℕ
at_most_volts = record {
  regulation_id = 1;
  parameter_name = some (text "voltage");
  operator = some lte;
  value_min = none;
  value_max = some 1000;
  value_enum = none;
  value_bool = none;
  unit = some (text "V");
  condition_type = inclusion;
  is_structured = true;
  raw_text = some (text "up to 1000 V");
  reference = some (text "Article 1");
  confidence = some 900;
  review_status = auto_approved;
}

abbrev not_medical : Condition ℕ
not_medical = record {
  regulation_id = 2;
  parameter_name = some (text "medical");
  operator = some eq;
  value_min = none;
  value_max = none;
  value_enum = none;
  value_bool = some true;
  unit = none;
  condition_type = exclusion;
  is_structured = true;
  raw_text = some (text "medical devices");
  reference = some (text "Article 2");
  confidence = some 800;
  review_status = auto_approved;
}

abbrev conds : List (Condition ℕ)
conds = at_most_volts ∷ not_medical ∷ []

abbrev hs_row : ℕ → HsMap ℕ
hs_row id = record {
  hs_code = text "850440";
  regulation_id = id;
  confidence = some 1000;
  match_type = exact;
  review_status = auto_approved;
  reviewer_id = none;
}

abbrev rows : List (HsMap ℕ)
rows = hs_row 1 ∷ hs_row 2 ∷ []

abbrev edges : List (Edge ℕ)
edges = []

abbrev attrs : Attributes ℕ
attrs = (text "voltage", number (some 230) (text "230")) ∷ (text "medical", bool true) ∷ []

abbrev nothing_said : Attributes ℕ
nothing_said = []

applies_at_230 : (decide_status attrs (at_most_volts ∷ [])).0 ≡ applies
unfolding decide_status evaluate text_beq sort dedup
applies_at_230 = refl

excluded_iff_example : ((decide_status attrs conds).0 ≡ excluded) ↔ Any (Blocks attrs) conds
excluded_iff_example = excluded_iff attrs conds

-- The names of the parameters are not empty.
conds-IsNamed : All IsNamed conds
conds-IsNamed = ((λ e. cc), ((λ e. cc), tt))

applies_iff_example :
    (((decide_status attrs conds).0 ≡ applies) × All (IsEvaluated attrs) conds)
    ↔ ((is_empty conds ≡ false) × All (Supports attrs) conds)
applies_iff_example = applies_iff attrs conds conds-IsNamed

silence_example :
    ((decide_status nothing_said conds).0 ≢ excluded)
    × ((decide_status nothing_said conds).0 ≢ applies)
unfolding attribute
silence_example =
    silence_decides_nothing nothing_said conds conds-IsNamed ((λ p e. refl), ((λ p e. refl), tt))

-- What the query returns for the catalogue.
abbrev answer : Option (List (WizardResult ℕ))
answer = query regs edges conds rows (text "850440") attrs

abbrev found : List (WizardResult ℕ)
found = elim answer [ none ↦ [] | some results ↦ results ]

answers : query regs edges conds rows (text "850440") attrs ≡ some found
unfolding query find_regulations_by_hs digits text_beq starts_with decide_status evaluate sort dedup
    evaluate_all match_score evaluate_regulation
answers = refl

-- A voltage that is too large for a float makes the whole query raise.
overflow_raises :
    query regs edges conds rows (text "850440") ((text "voltage", number none (text "1e400")) ∷ [])
    ≡ none
unfolding query find_regulations_by_hs digits text_beq starts_with decide_status evaluate sort dedup
    evaluate_all match_score evaluate_regulation
overflow_raises = refl

query-perm_example :
    Perm (result_ids found) (candidate_ids regs (find_regulations_by_hs (text "850440") rows))
query-perm_example = query-perm regs edges conds attrs rows (text "850440") found answers

query-IsWellFormed_example : All IsWellFormed found
query-IsWellFormed_example =
    query-IsWellFormed regs edges conds attrs thousandths-IsOrdered rows (text "850440") found
      answers
