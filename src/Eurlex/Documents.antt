-- ===== src/Eurlex/Documents.antt =====
-- `get_document` and `fetch_document` of eurlex/fetch.py: the requests that they make, in order, and
-- what they return. The folder of a CELEX id is a record of its files.
use compliance_wizard_engine.Prelude.{
  ℕ, Bool, true, false, Option, none, some, List, [], ◌∷◌, ◌++◌, Text, text, ◌==◌, nat_eq,
  if◌then◌else◌, length, starts_with,
}
use mathlib.Core.Option as Option
use compliance_wizard_engine.Eurlex.{Event, extract_html_text, extract_text, find_expression_uri}

pub record HttpRequest : Type 0 where
  pub url : Text
  pub accept : Option Text

pub record HttpReply : Type 0 where
  pub status_code : ℕ
  pub body : Text

pub record Document : Type 0 where
  pub body : Text
  pub expression_uri : Text
  pub rdf : Option Text
  pub xhtml : Text

-- A request that raises, a step that fails, and a document.
pub data Fetched : Type 0 where
  raises : Fetched
  missing : Fetched
  fetched : Document → Fetched

-- The network, the two parsers, the length of a content in bytes, and the language.
pub record Source : Type 0 where
  pub http_get : HttpRequest → Option HttpReply
  pub parse_xml : Text → Option (List (Text × Text))
  pub parse_html : Text → Option (List Event)
  pub byte_count : Text → ℕ
  pub language : Text

-- CELLAR_RESOURCE with the language as a parameter
unfoldable pub rdf_request : Text → Text → HttpRequest
rdf_request celex language = record {
  url =
      text "http://publications.europa.eu/resource/celex/"
      ++ (celex ++ (text "?language=" ++ language));
  accept = none;
}

abbrev pub xhtml_request : Text → HttpRequest
xhtml_request uri = record { url = uri; accept = some (text "application/xhtml+xml") }

abbrev pub html_request : Text → HttpRequest
html_request uri = record { url = uri; accept = some (text "text/html") }

abbrev pub is_ok : HttpReply → Bool
is_ok r = r.status_code == 200

-- Step 3: the text, or the raw response.
unfoldable pub document_of : Source → Text → Option Text → Bool → HttpReply → Document
unfolding extract_text extract_html_text
document_of src uri rdf is_xhtml reply =
    let extracted =
      if is_xhtml
      then extract_text src.parse_xml reply.body
      else extract_html_text src.parse_html reply.body in
    record {
      body = elim extracted [ none ↦ reply.body | some [] ↦ reply.body | some (c ∷ s) ↦ c ∷ s ];
      expression_uri = uri;
      rdf = rdf;
      xhtml = reply.body;
    }

-- Step 2: the manifestation, XHTML first.
unfoldable pub fetch_manifestation : Source → Text → Option Text → List HttpRequest × Fetched
unfolding document_of
fetch_manifestation src uri rdf = elim (src.http_get (xhtml_request uri)) [
  | none ↦ (xhtml_request uri ∷ [], raises)
  | some x ↦
      if is_ok x
      then (xhtml_request uri ∷ [], fetched (document_of src uri rdf true x))
      else elim (src.http_get (html_request uri)) [
        | none ↦ (xhtml_request uri ∷ html_request uri ∷ [], raises)
        | some h ↦
            if is_ok h
            then (
              xhtml_request uri ∷ html_request uri ∷ [],
              fetched (document_of src uri rdf false h),
            )
            else (xhtml_request uri ∷ html_request uri ∷ [], missing)
      ]
]

-- The requests so far in front of those of the next step.
abbrev after_request : HttpRequest → List HttpRequest × Fetched → List HttpRequest × Fetched
after_request r (requests, result) = (r ∷ requests, result)

unfoldable pub get_document : Source → Text → Option Text → List HttpRequest × Fetched
unfolding rdf_request fetch_manifestation find_expression_uri
get_document src celex (some uri) = fetch_manifestation src uri none
get_document src celex none =
    let request = rdf_request celex src.language in
    elim (src.http_get request) [
      | none ↦ (request ∷ [], raises)
      | some r ↦
          if is_ok r
          then elim (find_expression_uri r.body src.language) [
            | none ↦ (request ∷ [], missing)
            | some uri ↦ after_request request (fetch_manifestation src uri (some r.body))
          ]
          else (request ∷ [], missing)
    ]

-- What the caller of `fetch_document` says of the document, and the time of the call.
pub record FetchCall : Type 0 where
  pub title : Option Text
  pub eli : Option Text
  pub fetched_at : Text

-- The record that meta.json holds.
pub record MetaRecord : Type 0 where
  pub celex : Text
  pub title : Option Text
  pub eli : Option Text
  pub expression_uri : Option Text
  pub language : Text
  pub fetched_at : Text
  pub consolidated : Bool
  pub rdf_bytes : Option ℕ
  pub xhtml_bytes : ℕ
  pub text_chars : ℕ

-- The files of a folder: meta.json, rdf.xml, source.xhtml and text.txt.
pub record Folder : Type 0 where
  pub meta : Option MetaRecord
  pub rdf : Option Text
  pub xhtml : Option Text
  pub body : Option Text

unfoldable pub meta_record : Source → Text → FetchCall → Document → MetaRecord
unfolding starts_with
meta_record src celex call d = record {
  celex = celex;
  title = call.title;
  eli = call.eli;
  expression_uri = some d.expression_uri;
  language = src.language;
  fetched_at = call.fetched_at;
  consolidated = starts_with celex (text "0");
  rdf_bytes = Option.map src.byte_count d.rdf;
  xhtml_bytes = src.byte_count d.xhtml;
  text_chars = length d.body;
}

unfoldable pub saved : Source → Text → FetchCall → Document → Folder → Folder
unfolding meta_record
saved src celex call d folder = record {
  meta = some (meta_record src celex call d);
  rdf = elim d.rdf [ none ↦ folder.rdf | some r ↦ some r ];
  xhtml = some d.xhtml;
  body = some d.body;
}

unfoldable pub kept_after : Source → Text → FetchCall → Folder → Fetched → Folder
unfolding saved
kept_after src celex call folder (fetched d) = saved src celex call d folder
kept_after src celex call folder _ = folder

-- The URI that meta.json carries.
abbrev pub cached_uri : Folder → Option Text
cached_uri folder = elim folder.meta [ none ↦ none | some m ↦ m.expression_uri ]

-- `fetch_document`: the requests, the result and the folder after it.
unfoldable pub fetch_document :
    Source → Text → FetchCall → Bool → Folder → (List HttpRequest × Fetched) × Folder
unfolding get_document kept_after
fetch_document src celex call refresh folder =
    let got = get_document src celex (if refresh then none else cached_uri folder) in
    (got, kept_after src celex call folder got.1)
