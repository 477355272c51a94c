-- ===== src/Extracting/Examples.antt =====
-- An answer of the model, a document over the budget, and the theorems of Extracting at work on them.
use compliance_wizard_engine.Prelude.{
  ℕ, ◌≡◌, refl, true, Option, none, some, List, [], ◌∷◌, map, Text, text, text_beq, starts_with,
  lower, sort, thousandths, Ensures,
}
use compliance_wizard_engine.Schemas.{TextSegment}
use compliance_wizard_engine.Extracting.Json.{
  value, refused, number, Json, null, string, array, object, nil, Members, end, member, list_of,
  member_of, text_at, int_at, json_float, float_at,
}
use compliance_wizard_engine.Extracting.Parse.{
  caught, collect, iterated, iterated_or_none, mentions_of, summary_of, field_of_members, field_of,
  field_at, fields_at, parse_scalars, parse_arrays, parse_conditions, parse_routes, parse,
}
use compliance_wizard_engine.Extracting.Parsed.{InUnit, parse-InUnit, parse_raises_on_null}
use compliance_wizard_engine.Extracting.Budget.{priority, block, choose, prompt_segments}

-- `int` of a text, for these examples.
abbrev no_int : Text → Option ℕ
no_int s = none

-- A production type with a confidence, and mentions.
abbrev answer : ℕ → Json ℕ → Members ℕ
answer confidence mentions =
    member (text "production_type")
      (object [] (
        member (text "value") (string (text "serial"))
          (member (text "confidence") (number (value confidence) refused [] true) end)))
      (member (text "regulation_mentions") mentions end)

-- The confidence of the production type that is read.
abbrev read_confidence : Members ℕ → Option (Option ℕ)
read_confidence m = elim (parse no_int m) [
  | none ↦ none
  | some out ↦ elim out.production_type [ none ↦ some none | some f ↦ some (some f.confidence) ]
]

-- A field with a confidence above 1 is dropped, and the rest of the answer is kept.
read_confidences :
    (read_confidence (answer 800 (array [] nil)) ≡ some (some 800))
    × (read_confidence (answer 1200 (array [] nil)) ≡ some none)
unfolding parse parse_scalars parse_arrays parse_conditions parse_routes field_at fields_at field_of
    field_of_members member_of iterated_or_none mentions_of iterated list_of summary_of collect
    text_at float_at int_at json_float text_beq caught
read_confidences = (refl, refl)

parse-InUnit_example : Ensures (InUnit no_int) (parse no_int (answer 1200 (array [] nil)))
parse-InUnit_example = parse-InUnit no_int (answer 1200 (array [] nil))

found_null : member_of (text "regulation_mentions") (answer 800 null) ≡ some null
unfolding member_of text_beq
found_null = refl

null_refused : iterated {F = ℕ} null ≡ none
unfolding iterated
null_refused = refl

parse_raises_on_null_example : parse no_int (answer 800 null) ≡ none
parse_raises_on_null_example = parse_raises_on_null no_int (answer 800 null) found_null null_refused

abbrev segment : ℕ → Text → Text → TextSegment
segment i title words = record {
  section_title = some title;
  body = words;
  page_start = 1;
  page_end = 1;
  segment_index = i;
}

abbrev segs : List TextSegment
segs =
    segment 0 (text "Recitals") (text "Whereas the market is one, and so on.")
    ∷ segment 1 (text "Article 1") (text "Scope")
    ∷ segment 2 (text "Annex I") (text "List")
    ∷ []

-- `str` of an index, for these examples.
abbrev shown : ℕ → Text
shown n = text "0"

-- Sixty-four characters hold the annex and the article, which stay in document order.
annex_and_article : map (λ s. s.segment_index) (prompt_segments shown 64 segs).0 ≡ 1 ∷ 2 ∷ []
unfolding prompt_segments choose priority block starts_with sort lower
annex_and_article = refl
