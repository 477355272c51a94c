-- ===== src/Eurlex/Examples.antt =====
-- A document of EUR-Lex, and the theorems of Eurlex at work on it.
use compliance_wizard_engine.Prelude.{
  ℕ, ◌≡◌, refl, false, Option, none, some, List, [], ◌∷◌, ◌++◌, Text, text, text_beq, starts_with,
  length, take_while, is_space, strip, joined, text_eq,
}
use compliance_wizard_engine.Eurlex.{
  Event, start, end, content, is_text_tag, removed, extract_text, longest_ending, uri_at, uris_from,
  least_uri, find_expression_uri,
}
use compliance_wizard_engine.Extracting.Json.{
  Json, string, array, object, Items, nil, item, end, member, member_of, list_of,
}
use compliance_wizard_engine.Eurlex.Search.{
  doubled, quoted, escape, found, crashed, at_key, value_of, row_of, rows_of, rows_at,
  read_bindings, descriptor_type,
}
use compliance_wizard_engine.Eurlex.Escaped.{read_literal, read_literal-escape}
use compliance_wizard_engine.Eurlex.Documents.{
  HttpRequest, HttpReply, Document, fetched, Source, FetchCall, Folder, document_of,
  fetch_manifestation, get_document, fetch_document,
}
use compliance_wizard_engine.Eurlex.Cached.{FetchesAgain, fetch_document_cached}

-- The graph names a resource for each language.
abbrev graph : Text
graph =
    text
      "<a b=\"http://publications.europa.eu/resource/cellar/7.FRA\"/><a b=\"http://publications.europa.eu/resource/cellar/7.ENG\"/>"

uri_found :
    find_expression_uri graph (text "ENG")
    ≡ some (text "http://publications.europa.eu/resource/cellar/7.ENG")
unfolding find_expression_uri uris_from uri_at longest_ending least_uri starts_with take_while
    is_space
uri_found = refl

abbrev heading : List Event
heading = start (text "p") ∷ content (text "Article 1") ∷ end (text "p") ∷ []

abbrev scope : List Event
scope = start (text "p") ∷ content (text "Scope") ∷ []

-- A head with a title.
abbrev head : List Event
head = start (text "title") ∷ content (text "Article 2") ∷ end (text "title") ∷ []

abbrev title_tags : List Event
title_tags = start (text "title") ∷ end (text "title") ∷ []

-- A service that has the graph and one manifestation.
abbrev replies : HttpRequest → Option HttpReply
replies r = elim r.accept [
  | none ↦ some (record { status_code = 200; body = graph })
  | some t ↦ some (record { status_code = 200; body = text "Scope" })
]

abbrev source : Source
source = record {
  http_get = replies;
  parse_xml = λ t. some ((text "p", text " Scope ") ∷ []);
  parse_html = λ t. none;
  byte_count = length;
  language = text "ENG";
}

abbrev empty_folder : Folder
empty_folder = record { meta = none; rdf = none; xhtml = none; body = none }

abbrev first_call : FetchCall
first_call = record { title = none; eli = none; fetched_at = text "2026-01-01T00:00:00Z" }

abbrev second_call : FetchCall
second_call = record {
  title = some (text "Low Voltage Directive");
  eli = none;
  fetched_at = text "2026-01-02T00:00:00Z";
}

abbrev document : Document
document = record {
  body = text "Scope";
  expression_uri = text "http://publications.europa.eu/resource/cellar/7.ENG";
  rdf = some graph;
  xhtml = text "Scope";
}

first_fetch :
    (fetch_document source (text "32014L0035") first_call false empty_folder).0.1 ≡ fetched document
unfolding fetch_document get_document find_expression_uri uris_from uri_at longest_ending least_uri
    starts_with take_while is_space fetch_manifestation document_of extract_text is_text_tag removed
    text_beq joined strip
first_fetch = refl

fetch_document_cached_example :
    FetchesAgain source
      (text "32014L0035")
      document
      (fetch_document source (text "32014L0035") first_call false empty_folder).1
      second_call
fetch_document_cached_example =
    fetch_document_cached source (text "32014L0035") first_call second_call false empty_folder
      first_fetch

-- A quote in a term is no end of the literal.
escaped_quote : escape (text "a\"b\\c") ≡ text "a\\\"b\\\\c"
unfolding escape doubled quoted
escaped_quote = refl

read_literal-escape_example :
    read_literal false (escape (text "a\"b\\c") ++ (b'"' ∷ text "))"))
    ≡ some (text "a\"b\\c", text "))")
read_literal-escape_example = read_literal-escape (text "a\"b\\c") (text "))")

-- A row without an id is left out; an answer with an array for its results raises another exception
-- than the RuntimeError that the callers expect.
abbrev row : Text → Json ℕ
row celex =
    object [] (member (text "celex") (object [] (member (text "value") (string celex) end)) end)

abbrev bindings : Items ℕ → Json ℕ
bindings rows =
    object []
      (member (text "results") (object [] (member (text "bindings") (array [] rows) end)) end)

rows_read :
    (read_bindings (bindings (item (row []) (item (row (text "32014L0035")) nil)))
      ≡ found (
          record { celex = text "32014L0035"; title = string []; document_type = text "Directive" }
          ∷ []))
    × (read_bindings {F = ℕ} (object [] (member (text "results") (array [] nil) end)) ≡ crashed)
unfolding read_bindings at_key rows_at rows_of row_of value_of member_of list_of descriptor_type
    text_beq
rows_read = (refl, refl)
