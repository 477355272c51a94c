-- ===== src/Agentic/Examples.antt =====
-- The planner on a document, and the theorems of Agentic at work on it.
use compliance_wizard_engine.Prelude.{
  ℕ, ◌≡◌, ◌≢◌, ◌≤◌, refl, true, none, some, List, [], ◌∷◌, Text, text, is_some, length, arith,
  thousandths,
}
use compliance_wizard_engine.Schemas.{TextSegment, ExtractOutput}
use compliance_wizard_engine.Mapping.Examples.{extracted}
use compliance_wizard_engine.Pipeline.Examples.{agents, ref, job, empty}
use compliance_wizard_engine.Agentic.{
  PipelineState, Specialists, reextract, no_fetch, invoke, initial_state, done, exhausted,
}
use compliance_wizard_engine.Agentic.Turns.{agentic_run_ends}
use compliance_wizard_engine.Agentic.Chunks.{chunk_segments}

abbrev segment : ℕ → Text → TextSegment
segment i body = record {
  section_title = none;
  body = body;
  page_start = 1;
  page_end = 1;
  segment_index = i;
}

abbrev segments : List TextSegment
segments = segment 0 (text "Article 1") ∷ segment 1 (text "Article 2") ∷ segment 2 (text "x") ∷ []

-- Two segments fit into 180 characters, each with 80 for its heading.
two_chunks : length (chunk_segments segments 180) ≡ 2
unfolding chunk_segments
two_chunks = refl

-- A critic that is never content.
abbrev specialists : Specialists ℕ
specialists = record {
  extraction = λ s. some extracted;
  critique = λ s. some reextract;
  enrichment = λ s. no_fetch;
}

agentic_run_ends_example :
    (invoke ref agents specialists 20 7 (initial_state (λ c. true) job segments empty) ≢ exhausted)
    × ((s : PipelineState ℕ)
        → invoke ref agents specialists 20 7 (initial_state (λ c. true) job segments empty) ≡ done s
        → (is_some s.regulation_id ≡ true) × (s.extract_attempts ≤ 2))
agentic_run_ends_example =
    agentic_run_ends ref agents specialists 20 (λ c. true) job segments empty (omega arith)

-- The same document extracted twice, as from two chunks.
abbrev partials : List (ExtractOutput ℕ)
partials = extracted ∷ extracted ∷ []
