-- ===== src/Fetching/Examples.antt =====
-- An answer of the service with a date that is none, and the theorem of Fetching at work on it.
use compliance_wizard_engine.Prelude.{
  ℕ, ◌≡◌, ◌↔◌, refl, true, Option, none, some, Text, text, text_beq, upper, [], ◌==◌, text_eq,
  if◌then◌else◌, starts_with, has_part, thousandths,
}
use compliance_wizard_engine.Extracting.Json.{Json, string, object, end, member, member_of}
use compliance_wizard_engine.Fetching.{
  HttpResponse, as_text, as_optional, as_texts, raw_relationships, meta_of, query_api, output_of,
  skipped_output, run,
}
use compliance_wizard_engine.Fetching.Skipped.{IsRefused, run_raises_iff}

-- A reading of dates that knows one of them.
abbrev as_date : Json ℕ → Option ℕ
as_date x = elim (as_text x) [
  | none ↦ none
  | some t ↦ if t == text "2014-02-26" then some 16127 else none
]

abbrev responds : Text → Text → Option (HttpResponse ℕ)
responds date url = some (record {
  content_type = text "application/json";
  json = some (object [] (member (text "publication_date") (string date) end));
})

-- A date that pydantic refuses fails the run; no answer at all is skipped.
runs :
    (run as_date (responds (text "unknown")) (text "base") (text "32014L0035") (text "eu") ≡ none)
    × (run as_date (λ url. none) (text "base") (text "32014L0035") (text "EU")
        ≡ some skipped_output)
unfolding run query_api meta_of raw_relationships member_of as_texts as_optional as_text output_of
    text_beq upper has_part starts_with
runs = (refl, refl)

run_raises_iff_example :
    (run as_date (responds (text "unknown")) (text "base") (text "32014L0035") (text "EU") ≡ none)
    ↔ (((upper (text "EU") == text "EU") ≡ true)
        × IsRefused as_date (responds (text "unknown")) (text "base") (text "32014L0035"))
run_raises_iff_example =
    run_raises_iff as_date (responds (text "unknown")) (text "base") (text "32014L0035") (text "EU")
