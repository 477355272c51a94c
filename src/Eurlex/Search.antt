-- ===== src/Eurlex/Search.antt =====
-- eurlex/search.py: the query for documents by title, and what is read from the answer. `http_get` is
-- the request with its status and its body as JSON, None where it raises RequestException; `shown` is
-- `str` of the limit. An array in place of a CELEX id is left out.
use compliance_wizard_engine.Prelude.{
  ℕ, Option, none, some, List, [], ◌∷◌, ◌++◌, map, Text, text, is_nil, is_space, lower, strip, drop,
  joined, ◌==◌, nat_eq, if◌then◌else◌,
}
use compliance_wizard_engine.Extracting.Json.{
  Json, string, array, object, Members, end, member_of, list_of, is_true,
}

-- `term.replace("\\", "\\\\")` and `.replace('"', '\\"')`
unfoldable pub doubled : Text → Text
doubled [] = []
doubled (c ∷ s) = if c == b'\\' then b'\\' ∷ b'\\' ∷ doubled s else c ∷ doubled s

unfoldable pub quoted : Text → Text
quoted [] = []
quoted (c ∷ s) = if c == b'"' then b'\\' ∷ b'"' ∷ quoted s else c ∷ quoted s

-- `_escape`
unfoldable pub escape : Text → Text
unfolding doubled quoted
escape term = quoted (doubled term)

-- `query.split()`, with the word under construction
abbrev non_blank : Text → List Text
non_blank [] = []
non_blank (c ∷ s) = (c ∷ s) ∷ []

unfoldable pub words_from : Text → Text → List Text
words_from cur [] = non_blank cur
words_from cur (c ∷ s) =
    let closed = non_blank cur ++ words_from [] s in
    let longer = words_from (cur ++ c ∷ []) s in if is_space c then closed else longer

-- One filter of the query.
unfoldable pub title_filter : Text → Text
unfolding escape
title_filter token =
    text "  FILTER(CONTAINS(LCASE(STR(?title)), \"" ++ (escape (lower token) ++ text "\"))")

-- `_build_query`
unfoldable pub build_query : (ℕ → Text) → Text → ℕ → Text → Text
unfolding words_from title_filter joined
build_query shown query limit language =
    text
      "PREFIX cdm: <http://publications.europa.eu/ontology/cdm#>\nSELECT DISTINCT ?celex ?title WHERE {\n  ?work cdm:resource_legal_id_celex ?celex .\n  ?exp cdm:expression_belongs_to_work ?work ;\n       cdm:expression_uses_language <http://publications.europa.eu/resource/authority/language/"
    ++ (language
        ++ (text "> ;\n       cdm:expression_title ?title .\n"
            ++ (joined (text "\n") (map title_filter (words_from [] query))
                ++ (text
                      "\n  FILTER(REGEX(STR(?celex), \"^3[0-9]{4}[A-Z]{1,2}[0-9]{3,4}$\"))\n} ORDER BY DESC(?celex) LIMIT "
                    ++ shown limit))))

pub record FoundDocument (F : Type 0) : Type 0 where
  pub celex : Text
  pub title : Json F
  pub document_type : Text

-- The rows, a RuntimeError, or any other exception.
pub data Searched (F : Type 0) : Type 0 where
  found : List (FoundDocument F) → Searched F
  unavailable : Searched F
  crashed : Searched F

-- A step of the reading: a value, KeyError, or another exception.
pub data Read (A : Type 0) : Type 0 where
  value : A → Read A
  no_key : Read A
  no_object : Read A

-- `_DESCRIPTOR_TO_TYPE.get(descriptor, "Other")`
unfoldable pub descriptor_type : Text → Text
descriptor_type celex = elim (drop 5 celex) [
  | [] ↦ text "Other"
  | c ∷ rest ↦
      if c == b'L'
      then text "Directive"
      else if c == b'R'
      then text "Regulation"
      else if c == b'D'
      then text "Decision"
      else text "Other"
]

module _ {F : Type 0} where
  -- `value[key]`
  unfoldable pub at_key : Text → Json F → Read (Json F)
  unfolding member_of
  at_key key (object shown m) = elim (member_of key m) [ none ↦ no_key | some x ↦ value x ]
  at_key key _ = no_object

  -- `b.get(key, {}).get("value")`
  unfoldable pub value_of : Text → Members F → Read (Option (Json F))
  unfolding member_of
  value_of key m = elim (member_of key m) [
    | none ↦ value none
    | some (object shown inner) ↦ value (member_of (text "value") inner)
    | some x ↦ no_object
  ]

  -- One row: None inside for a row that is left out.
  unfoldable pub row_of : Members F → Read (Option (FoundDocument F))
  unfolding value_of descriptor_type is_true
  row_of m = elim (value_of (text "celex") m) [
    | no_key ↦ no_key
    | no_object ↦ no_object
    | value celex ↦ elim (value_of (text "title") m) [
      | no_key ↦ no_key
      | no_object ↦ no_object
      | value title ↦ elim celex [
        | none ↦ value none
        | some (string []) ↦ value none
        | some (string (c ∷ s)) ↦ value (
            some (record {
              celex = c ∷ s;
              title = elim title [ none ↦ string [] | some t ↦ t ];
              document_type = descriptor_type (c ∷ s);
            }))
        | some x ↦ if is_true x then no_object else value none
      ]
    ]
  ]

  unfoldable pub rows_of : List (Json F) → Read (List (FoundDocument F))
  unfolding row_of
  rows_of [] = value []
  rows_of (object shown m ∷ items) = elim (row_of m) [
    | no_key ↦ no_key
    | no_object ↦ no_object
    | value row ↦ elim (rows_of items) [
      | no_key ↦ no_key
      | no_object ↦ no_object
      | value rows ↦ value (elim row [ none ↦ rows | some r ↦ r ∷ rows ])
    ]
  ]
  rows_of (x ∷ items) = no_object

  -- The loop over the bindings: an object's keys and a text's characters have no `get`.
  unfoldable pub rows_at : Json F → Read (List (FoundDocument F))
  unfolding rows_of list_of
  rows_at (array shown items) = rows_of (list_of items)
  rows_at (object shown end) = value []
  rows_at (string []) = value []
  rows_at _ = no_object

  unfoldable pub read_bindings : Json F → Searched F
  unfolding at_key rows_at
  read_bindings body = elim (at_key (text "results") body) [
    | no_key ↦ unavailable
    | no_object ↦ crashed
    | value results ↦ elim (at_key (text "bindings") results) [
      | no_key ↦ unavailable
      | no_object ↦ crashed
      | value bindings ↦ elim (rows_at bindings) [
        | value rows ↦ found rows
        | no_key ↦ crashed
        | no_object ↦ crashed
      ]
    ]
  ]

  -- `search_documents`: a body that is no JSON raises ValueError.
  unfoldable pub search_documents :
      (Text → Option (ℕ × Option (Json F))) → (ℕ → Text) → Text → ℕ → Text → Searched F
  unfolding build_query read_bindings
  search_documents http_get shown query limit language =
      if is_nil (strip query)
      then found []
      else elim (http_get (build_query shown (strip query) limit language)) [
        | none ↦ unavailable
        | some (status, body) ↦
            if status == 200
            then elim body [ none ↦ unavailable | some json ↦ read_bindings json ]
            else unavailable
      ]
