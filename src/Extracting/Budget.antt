-- ===== src/Extracting/Budget.antt =====
-- `_build_prompt` of agents/extract_agent.py: the segments that fit the budget, taken by priority and
-- shown in document order. `shown` is `str` of a number; `instructions` is the rest of the prompt.
use compliance_wizard_engine.Prelude.{
  ℕ, ◌+◌, ◌-◌, Bool, ◌&&◌, ◌||◌, List, [], ◌∷◌, ◌++◌, map, Text, text, lower, starts_with, length,
  ltb, leb, opt_text_or, ◌==◌, nat_eq, if◌then◌else◌, sort, joined,
}
use compliance_wizard_engine.Schemas.{TextSegment}

-- `_priority`
unfoldable pub priority : TextSegment → ℕ
priority seg =
    let title = lower (opt_text_or seg.section_title []) in
    if starts_with title (text "annex")
    then 0
    else if starts_with title (text "article")
        || (starts_with title (text "art.") || starts_with title (text "art "))
    then 1
    else if starts_with title (text "chapter") || starts_with title (text "section")
    then 2
    else 3

-- The order of the key (priority, segment_index).
abbrev pub ranks_before : TextSegment → TextSegment → Bool
ranks_before a b =
    ltb (priority a) (priority b) || priority a == priority b && leb a.segment_index b.segment_index

unfoldable pub block : (ℕ → Text) → TextSegment → Text
block shown seg =
    text "\n["
    ++ (shown seg.segment_index
        ++ (text "] (p."
            ++ (shown seg.page_start
                ++ (text "-"
                    ++ (shown seg.page_end
                        ++ (text ") "
                            ++ (opt_text_or seg.section_title (text "(untitled)")
                                ++ (text "\n" ++ seg.body))))))))

-- The loop over the ranked segments: the chosen ones, and the number of those left out.
unfoldable pub choose : (TextSegment → ℕ) → ℕ → List TextSegment → List TextSegment × ℕ
choose len budget [] = ([], 0)
choose len budget (seg ∷ segs) =
    let fits = leb (len seg) budget in
    let (chosen, omitted) = choose len (if fits then budget - len seg else budget) segs in
    if fits then (seg ∷ chosen, omitted) else (chosen, omitted + 1)

abbrev pub in_document_order : TextSegment → TextSegment → Bool
in_document_order a b = leb a.segment_index b.segment_index

-- The chosen segments in document order, and the number of those left out.
unfoldable pub prompt_segments : (ℕ → Text) → ℕ → List TextSegment → List TextSegment × ℕ
unfolding choose block
prompt_segments shown max_chars segs =
    let (chosen, omitted) =
      choose (λ seg. length (block shown seg)) max_chars (sort ranks_before segs) in
    (sort in_document_order chosen, omitted)

unfoldable pub build_prompt : (ℕ → Text) → ℕ → Text → List TextSegment → Text
unfolding prompt_segments block joined
build_prompt shown max_chars instructions segs =
    let (chosen, omitted) = prompt_segments shown max_chars segs in
    let note =
      if omitted == 0
      then []
      else (text "\n...["
          ++ (shown omitted ++ text " lower-priority segment(s) omitted to fit the budget]..."))
        ∷ [] in
    joined (text "\n") (
      text "Document segments (index | page | title | text):"
      ∷ (map (block shown) chosen ++ (note ++ instructions ∷ [])))
