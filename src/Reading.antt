-- ===== src/Reading.antt =====
-- agents/read_agent.py and agents/segment_text.py: a document's text in segments, one from each
-- heading to the next. What PyMuPDF and python-docx read is an argument: the text blocks of the pages,
-- or the paragraphs and the cells of the tables. Bounding boxes are left out.
pub mod Solid
pub mod Kept
pub mod Lines
mod Examples
use compliance_wizard_engine.Prelude.{
  ℕ, suc, ◌+◌, Bool, true, false, ◌&&◌, ◌||◌, not, Option, none, some, List, [], ◌∷◌, ◌++◌, map,
  Text, text, is_nil, is_digit, is_alnum, is_space, lower, strip, take_while, drop_while,
  starts_with, keep, take, drop, length, leb, ◌==◌, nat_eq, if◌then◌else◌, joined, is_empty,
}
use compliance_wizard_engine.Schemas.{TextSegment}

-- the line boundaries of `str.splitlines`
unfoldable pub is_line_break : ℕ → Bool
is_line_break c =
    leb 10 c && leb c 13 || leb 28 c && leb c 30 || c == 133 || leb 8232 c && leb c 8233

-- `\w`, and the classes of the two kinds of number in a heading
abbrev is_word : ℕ → Bool
is_word c = is_alnum c || c == b'_'

abbrev is_numeral : ℕ → Bool
is_numeral c =
    is_digit c
    || c == b'i'
    || c == b'v'
    || c == b'x'
    || c == b'l'
    || c == b'c'
    || c == b'd'
    || c == b'm'

-- A run of at least one character of a class, and then `\b`.
unfoldable pub number_at : (ℕ → Bool) → Text → Bool
number_at class t = elim (drop_while class t) [
  | [] ↦ not (is_nil t)
  | c ∷ rest ↦ not (is_nil (take_while class t)) && not (is_word c)
]

-- `\s+` in front of the number
unfoldable pub spaced_number_at : (ℕ → Bool) → Text → Bool
unfolding number_at
spaced_number_at class [] = false
spaced_number_at class (c ∷ t) = is_space c && number_at class (drop_while is_space t)

-- `art\.?\s*\d+`, behind the word
unfoldable pub art_number_at : Text → Bool
unfolding number_at
art_number_at [] = false
art_number_at (c ∷ t) = number_at is_digit (drop_while is_space (if c == b'.' then t else c ∷ t))

-- `_HEADING.match(line)`
unfoldable pub is_heading : Text → Bool
unfolding spaced_number_at art_number_at
is_heading line =
    let t = drop_while is_space (lower line) in
    starts_with t (text "article") && spaced_number_at is_digit (drop 7 t)
    || starts_with t (text "annex") && spaced_number_at is_numeral (drop 5 t)
    || starts_with t (text "chapter") && spaced_number_at is_numeral (drop 7 t)
    || starts_with t (text "section") && spaced_number_at is_digit (drop 7 t)
    || starts_with t (text "art") && art_number_at (drop 3 t)

-- A piece of the document: a text block of a page, or a line of a plain text; its heading, if the
-- piece opens a segment.
pub record Piece : Type 0 where
  pub page : ℕ
  pub heading : Option Text
  pub body : Text

-- The segment under construction: the dict `cur`.
pub record Draft : Type 0 where
  pub title : Option Text
  pub body : Text
  pub page_start : ℕ
  pub page_end : ℕ

unfoldable pub finish : Draft → ℕ → TextSegment
finish c i = record {
  section_title = c.title;
  body = strip c.body;
  page_start = c.page_start;
  page_end = c.page_end;
  segment_index = i;
}

abbrev pub opened : Piece → Draft
opened p = record { title = p.heading; body = p.body; page_start = p.page; page_end = p.page }

abbrev pub extended : Draft → Piece → Draft
extended c p = record c { body = c.body ++ (text "\n" ++ p.body); page_end = p.page }

abbrev pub opens : Piece → Bool
opens p = elim p.heading [ none ↦ false | some t ↦ true ]

-- The loop of `_segment` and of `segment_text`, with a segment under construction and its index.
unfoldable pub segments_from : Draft → ℕ → List Piece → List TextSegment
unfolding finish
segments_from c i [] = finish c i ∷ []
segments_from c i (p ∷ pieces) =
    let closed = finish c i ∷ segments_from (opened p) (suc i) pieces in
    let longer = segments_from (extended c p) i pieces in if opens p then closed else longer

unfoldable pub segments_of : List Piece → List TextSegment
unfolding segments_from
segments_of [] = []
segments_of (p ∷ pieces) = segments_from (opened p) 0 pieces

-- `splitlines` but for the empty lines that a "\r\n" leaves here
unfoldable pub split_lines : Text → Text → List Text
unfolding is_line_break
split_lines cur [] = cur ∷ []
split_lines cur (c ∷ s) =
    let closed = cur ∷ split_lines [] s in
    let longer = split_lines (cur ++ c ∷ []) s in if is_line_break c then closed else longer

-- `[ln.strip() for ln in text.splitlines() if ln.strip()]`
unfoldable pub lines_of : Text → List Text
unfolding split_lines
lines_of s = keep (λ l. not (is_nil l)) (map strip (split_lines [] s))

unfoldable pub line_piece : Text → Piece
unfolding is_heading
line_piece line =
    let start = take 120 line in
    record { page = 0; heading = if is_heading start then some start else none; body = line }

unfoldable pub segment_text : Text → List TextSegment
unfolding lines_of line_piece segments_of
segment_text s = segments_of (map line_piece (lines_of s))

-- A block of a page: its number and its text, which `_extract_blocks` strips and drops if empty.
unfoldable pub blocks_of : List (ℕ × Text) → List (ℕ × Text)
blocks_of blocks = keep (λ b. not (is_nil b.1)) (map (λ b. (b.0, strip b.1)) blocks)

unfoldable pub block_piece : ℕ × Text → Piece
unfolding is_line_break is_heading
block_piece (page, body) =
    let first = take 120 (take_while (λ c. not (is_line_break c)) body) in
    record {
      page = page;
      heading = if is_heading first then some (strip first) else none;
      body = body;
    }

unfoldable pub read_pages : List (ℕ × Text) → List TextSegment
unfolding blocks_of block_piece segments_of
read_pages blocks = segments_of (map block_piece (blocks_of blocks))

-- The text that `_read_docx` hands on: the paragraphs, and a line for each row of a table.
abbrev filled_in : List Text → List Text
filled_in texts = keep (λ t. not (is_nil t)) (map strip texts)

unfoldable pub docx_text : List Text → List (List Text) → Text
docx_text paragraphs table_rows = joined (text "\n") (
    filled_in paragraphs
    ++ map (joined (text " | ")) (keep (λ cells. not (is_empty cells)) (map filled_in table_rows)))

unfoldable pub read_docx : List Text → List (List Text) → List TextSegment
unfolding docx_text segment_text
read_docx paragraphs table_rows = segment_text (docx_text paragraphs table_rows)
