-- ===== src/Reading/Examples.antt =====
-- A short document in segments, and the theorem of Reading at work on it.
use compliance_wizard_engine.Prelude.{
  ℕ, ◌≡◌, refl, none, some, List, [], ◌∷◌, map, Text, text, take_while, drop_while, starts_with,
  joined, strip, is_space, lower, is_digit, is_alnum,
}
use compliance_wizard_engine.Reading.{
  is_line_break, number_at, spaced_number_at, art_number_at, is_heading, finish, segments_from,
  segments_of, split_lines, lines_of, line_piece, segment_text, blocks_of, read_pages, docx_text,
}
use compliance_wizard_engine.Reading.Kept.{Keeps, segmentation-Keeps}

abbrev document : Text
document = text "Whereas\n\n ARTICLE 1  \nThis applies.\nAnnexes follow.\nAnnex IV\n10 V"

-- A heading opens a segment in either case, and "Annexes" is none.
segments_of_document :
    map (λ s. s.section_title) (segment_text document)
    ≡ none ∷ some (text "ARTICLE 1") ∷ some (text "Annex IV") ∷ []
unfolding segment_text lines_of split_lines is_line_break line_piece is_heading number_at
    spaced_number_at art_number_at segments_of segments_from finish starts_with strip is_space
    take_while drop_while lower is_digit is_alnum
segments_of_document = refl

-- The rows of a table become lines, without their empty cells.
table_rows :
    docx_text
      (text "Scope " ∷ [] ∷ [])
      ((text "10 V" ∷ text " " ∷ text "20 V" ∷ []) ∷ (text " " ∷ []) ∷ [])
    ≡ text "Scope\n10 V | 20 V"
unfolding docx_text joined strip is_space
table_rows = refl

abbrev blocks : List (ℕ × Text)
blocks = (1, text "Article 1\nScope") ∷ (1, text "  ") ∷ (2, text "It applies. ") ∷ []

segmentation-Keeps_example :
    Keeps (lines_of document) (segment_text document)
    × Keeps (map (λ b. b.1) (blocks_of blocks)) (read_pages blocks)
segmentation-Keeps_example = segmentation-Keeps document blocks
