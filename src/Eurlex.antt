-- ===== src/Eurlex.antt =====
-- eurlex/fetch.py with find_expression_uri of eurlex/rdf.py: from a CELEX number to the text of a
-- document. `http_get` is the request, None where it raises; the parsers of the standard library are
-- arguments: `parse_xml` gives the elements with their texts, None on a ParseError, and `parse_html` the
-- events of HTMLParser, None where feed raises.
pub mod Skips
pub mod Documents
pub mod Cached
pub mod Search
pub mod Escaped
mod Examples
use compliance_wizard_engine.Prelude.{
  ℕ, zero, suc, ◌+◌, ◌-◌, Bool, true, false, ◌&&◌, ◌||◌, not, Option, none, some, List, [], ◌∷◌,
  ◌++◌, map, Text, text, is_nil, is_space, strip, take_while, starts_with, text_leb, keep, drop,
  length, any, joined, ltb, ◌==◌, nat_eq, text_eq, if◌then◌else◌,
}
use compliance_wizard_engine.Reading.{lines_of}

-- TEXT_TAGS, _BREAK and _SKIP
unfoldable pub is_text_tag : Text → Bool
is_text_tag tag =
    any (λ t. t == tag) (text "p" ∷ text "li" ∷ text "h1" ∷ text "h2" ∷ text "h3" ∷ text "h4" ∷ [])

unfoldable pub is_break : Text → Bool
unfolding is_text_tag
is_break tag =
    is_text_tag tag || any (λ t. t == tag) (text "br" ∷ text "div" ∷ text "tr" ∷ text "table" ∷ [])

unfoldable pub is_skip : Text → Bool
is_skip tag = any (λ t. t == tag) (text "script" ∷ text "style" ∷ text "head" ∷ [])

-- The calls that HTMLParser makes of its handlers.
pub data Event : Type 0 where
  start : (tag : Text) → Event
  start_end : (tag : Text) → Event
  end : (tag : Text) → Event
  content : Text → Event

pub record Extractor : Type 0 where
  pub parts : List Text
  pub skip : ℕ

-- `self._parts.append(part)`
abbrev pub with_part : Text → Extractor → Extractor
with_part part x = record x { parts = x.parts ++ part ∷ [] }

-- `if tag in self._BREAK: self._parts.append("\n")`
unfoldable pub broken_at : Text → Extractor → Extractor
unfolding is_break
broken_at tag x = if is_break tag then with_part (text "\n") x else x

-- handle_starttag, handle_startendtag, handle_endtag and handle_data
unfoldable pub handle : Event → Extractor → Extractor
unfolding is_skip broken_at
handle (start tag) x = if is_skip tag then record x { skip = suc x.skip } else broken_at tag x
handle (start_end tag) x = broken_at tag x
handle (end tag) x =
    if is_skip tag && ltb 0 x.skip then record x { skip = x.skip - 1 } else broken_at tag x
handle (content s) x = if x.skip == 0 then with_part s x else x

unfoldable pub feed : List Event → Extractor → Extractor
unfolding handle
feed [] x = x
feed (e ∷ events) x = feed events (handle e x)

abbrev pub empty_extractor : Extractor
empty_extractor = record { parts = []; skip = 0 }

-- The property `text` of _HTMLTextExtractor.
unfoldable pub text_of : Extractor → Text
unfolding lines_of joined
text_of x = joined (text "\n") (lines_of (joined [] x.parts))

-- `s or None`
abbrev pub non_empty : Text → Option Text
non_empty [] = none
non_empty (c ∷ s) = some (c ∷ s)

unfoldable pub extract_html_text : (Text → Option (List Event)) → Text → Option Text
unfolding feed text_of
extract_html_text parse_html html = elim (parse_html html) [
  | none ↦ none
  | some events ↦ non_empty (text_of (feed events empty_extractor))
]

-- `t.replace(part, "")`: the number of characters still to be left out, and the rest.
unfoldable pub removed : Text → ℕ → Text → Text
unfolding starts_with
removed part k [] = []
removed part (suc k) (c ∷ t) = removed part k t
removed part zero (c ∷ t) =
    let inside = removed part (length part - 1) t in
    let after = removed part zero t in if starts_with (c ∷ t) part then inside else c ∷ after

-- `_extract_text`
unfoldable pub extract_text : (Text → Option (List (Text × Text))) → Text → Option Text
unfolding removed is_text_tag joined
extract_text parse_xml xhtml =
    elim (parse_xml (removed (text " xmlns=\"http://www.w3.org/1999/xhtml\"") 0 xhtml)) [
      | none ↦ none
      | some elements ↦ some (
          joined (text "\n") (
            keep (λ t. not (is_nil t))
              (map (λ e. strip e.1) (keep (λ e. is_text_tag e.0) elements))))
    ]

-- The longest start of a run that ends with `suffix`, behind at least one character.
unfoldable pub longest_ending : Text → Text → Option Text
unfolding starts_with
longest_ending suffix [] = none
longest_ending suffix (c ∷ s) = elim (longest_ending suffix s) [
  | some t ↦ some (c ∷ t)
  | none ↦ if starts_with s suffix then some (c ∷ suffix) else none
]

abbrev is_uri_char : ℕ → Bool
is_uri_char c = not (is_space c) && (not (c == b'"') && (not (c == b'<') && not (c == b'>')))

abbrev resource_prefix : Text
resource_prefix = text "http://publications.europa.eu/resource/"

-- The pattern at the start of a text.
unfoldable pub uri_at : Text → Text → Option Text
unfolding longest_ending starts_with
uri_at language t =
    if starts_with t resource_prefix
    then elim (longest_ending (text "." ++ language)
        (take_while is_uri_char (drop (length resource_prefix) t))) [
          | none ↦ none
          | some tail ↦ some (resource_prefix ++ tail)
        ]
    else none

-- `re.findall`: the number of characters still inside a match, and the rest.
unfoldable pub uris_from : Text → ℕ → Text → List Text
unfolding uri_at
uris_from language k [] = []
uris_from language (suc k) (c ∷ t) = uris_from language k t
uris_from language zero (c ∷ t) = elim (uri_at language (c ∷ t)) [
  | none ↦ uris_from language zero t
  | some uri ↦ uri ∷ uris_from language (length uri - 1) t
]

-- `sorted(set(matches))[0]`
unfoldable pub least_uri : List Text → Option Text
unfolding text_leb
least_uri [] = none
least_uri (t ∷ ts) = elim (least_uri ts) [
  | none ↦ some t
  | some u ↦ if text_leb t u then some t else some u
]

unfoldable pub find_expression_uri : Text → Text → Option Text
unfolding uris_from least_uri
find_expression_uri rdf language = least_uri (uris_from language 0 rdf)
