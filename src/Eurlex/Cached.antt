-- ===== src/Eurlex/Cached.antt =====
-- What the folder of a document saves of the requests.
use compliance_wizard_engine.Prelude.{
  ◌≤◌, ◌≡◌, refl, sym, ap, subst, ◌∙◌, Bool, true, false, Option, none, some, is_some, All, Text,
  length, if◌then◌else◌, arith, Bool-cases, Option-cases, inl, inr,
}
use compliance_wizard_engine.Eurlex.{find_expression_uri}
use compliance_wizard_engine.Eurlex.Documents.{
  HttpRequest, Document, Fetched, raises, missing, fetched, Source, rdf_request, xhtml_request,
  html_request, is_ok, document_of, fetch_manifestation, get_document, FetchCall, meta_record,
  Folder, cached_uri, saved, kept_after, fetch_document,
}

-- The document without the graph that it was found by.
abbrev pub without_rdf : Document → Document
without_rdf d = record d { rdf = none }

abbrev with_rdf : Option Text → Fetched → Fetched
with_rdf rdf (fetched d) = fetched (record d { rdf = rdf })
with_rdf rdf raises = raises
with_rdf rdf missing = missing

with_rdf-twice :
    (rdf : Option Text) (f : Fetched) → with_rdf none (with_rdf rdf f) ≡ with_rdf none f
with_rdf-twice rdf (fetched d) = refl
with_rdf-twice rdf raises = refl
with_rdf-twice rdf missing = refl

-- A manifestation does not depend on the graph, which the result carries along.
fetch_manifestation-rdf :
    (src : Source) (uri : Text) (rdf : Option Text)
    → fetch_manifestation src uri rdf
      ≡ ((fetch_manifestation src uri none).0, with_rdf rdf (fetch_manifestation src uri none).1)
unfolding fetch_manifestation document_of
fetch_manifestation-rdf src uri rdf = elim (Option-cases (src.http_get (xhtml_request uri))) [
  | inl e ↦ rw (e, fetch_manifestation) refl
  | inr (x, e) ↦ elim (Bool-cases (is_ok x)) [
    | inl k ↦ rw (e, fetch_manifestation) (rw k refl)
    | inr k ↦ elim (Option-cases (src.http_get (html_request uri))) [
      | inl m ↦ rw (e, fetch_manifestation) (rw k (rw m refl))
      | inr (h, m) ↦ elim (Bool-cases (is_ok h)) [
        | inl n ↦ rw (e, fetch_manifestation) (rw k (rw m (rw n refl)))
        | inr n ↦ rw (e, fetch_manifestation) (rw k (rw m (rw n refl)))
      ]
    ]
  ]
]

-- What a result has: the URI that it was fetched from.
abbrev IsFrom : Text → Fetched → Type 0
IsFrom uri (fetched d) = d.expression_uri ≡ uri
IsFrom uri _ = Unit

fetch_manifestation-IsFrom :
    (src : Source) (uri : Text) (rdf : Option Text) → IsFrom uri (fetch_manifestation src uri rdf).1
unfolding fetch_manifestation document_of
fetch_manifestation-IsFrom src uri rdf = elim (Option-cases (src.http_get (xhtml_request uri))) [
  | inl e ↦ rw (e, fetch_manifestation) tt
  | inr (x, e) ↦ elim (Bool-cases (is_ok x)) [
    | inl k ↦ rw (e, fetch_manifestation) (rw k refl)
    | inr k ↦ elim (Option-cases (src.http_get (html_request uri))) [
      | inl m ↦ rw (e, fetch_manifestation) (rw k (rw m tt))
      | inr (h, m) ↦ elim (Bool-cases (is_ok h)) [
        | inl n ↦ rw (e, fetch_manifestation) (rw k (rw m (rw n refl)))
        | inr n ↦ rw (e, fetch_manifestation) (rw k (rw m (rw n tt)))
      ]
    ]
  ]
]

-- A request that names a format: one for a manifestation, and not for the graph.
abbrev pub asks_for_text : HttpRequest → Bool
asks_for_text r = is_some r.accept

fetch_manifestation-asks :
    (src : Source) (uri : Text) (rdf : Option Text)
    → All (λ r. asks_for_text r ≡ true) (fetch_manifestation src uri rdf).0
      × (length (fetch_manifestation src uri rdf).0 ≤ 2)
unfolding fetch_manifestation
fetch_manifestation-asks src uri rdf = elim (Option-cases (src.http_get (xhtml_request uri))) [
  | inl e ↦ rw (e, fetch_manifestation) ((refl, tt), omega arith)
  | inr (x, e) ↦ elim (Bool-cases (is_ok x)) [
    | inl k ↦ rw (e, fetch_manifestation) (rw k ((refl, tt), omega arith))
    | inr k ↦ elim (Option-cases (src.http_get (html_request uri))) [
      | inl m ↦ rw (e, fetch_manifestation) (rw k (rw m ((refl, (refl, tt)), omega arith)))
      | inr (h, m) ↦ elim (Bool-cases (is_ok h)) [
        | inl n ↦ rw (e, fetch_manifestation) (rw k (rw m (rw n ((refl, (refl, tt)), omega arith))))
        | inr n ↦ rw (e, fetch_manifestation) (rw k (rw m (rw n ((refl, (refl, tt)), omega arith))))
      ]
    ]
  ]
]

-- A document that was fetched is found again at its URI.
found_again :
    (src : Source) (uri : Text) (rdf : Option Text) {d : Document}
    → (fetch_manifestation src uri rdf).1 ≡ fetched d
    → (fetch_manifestation src d.expression_uri none).1 ≡ fetched (without_rdf d)
found_again src uri rdf {d} h =
    let from : d.expression_uri ≡ uri =
      subst (IsFrom uri) h (fetch_manifestation-IsFrom src uri rdf) in
    let same : with_rdf none (fetch_manifestation src uri rdf).1
        ≡ (fetch_manifestation src uri none).1 =
      ap (λ p. with_rdf none p.1) (fetch_manifestation-rdf src uri rdf)
      ∙ (with_rdf-twice rdf (fetch_manifestation src uri none).1
          ∙ sym (ap (λ p. p.1) (fetch_manifestation-rdf src uri none))) in
    subst (λ u. (fetch_manifestation src u none).1 ≡ fetched (without_rdf d)) (sym from)
      (sym same ∙ ap (with_rdf none) h)

get_document-again :
    (src : Source) (celex : Text) (cached : Option Text) {d : Document}
    → (get_document src celex cached).1 ≡ fetched d
    → (fetch_manifestation src d.expression_uri none).1 ≡ fetched (without_rdf d)
unfolding get_document
get_document-again src celex (some uri) h = found_again src uri none h
get_document-again src celex none h =
    elim (Option-cases (src.http_get (rdf_request celex src.language))) [
      | inl e ↦ cc (rw (e, get_document) at h)
      | inr (r, e) ↦ elim (Bool-cases (is_ok r)) [
        | inr k ↦ cc (rw k at rw (e, get_document) at h)
        | inl k ↦ elim (Option-cases (find_expression_uri r.body src.language)) [
          | inl m ↦ cc (rw m at rw k at rw (e, get_document) at h)
          | inr (uri, m) ↦
              found_again src uri (some r.body) (rw m at rw k at rw (e, get_document) at h)
        ]
      ]
    ]

-- The same files but meta.json, which has the same URI.
abbrev pub SameFiles : Folder → Folder → Type 0
SameFiles a b =
    (b.rdf ≡ a.rdf) × (b.xhtml ≡ a.xhtml) × (b.body ≡ a.body) × (cached_uri b ≡ cached_uri a)

-- What a second fetch does, from the folder that the first has left.
abbrev pub FetchesAgain : Source → Text → Document → Folder → FetchCall → Type 0
FetchesAgain src celex d after call =
    let again = fetch_document src celex call false after in
    (again.0.1 ≡ fetched (without_rdf d))
    × SameFiles after again.1
    × (again.1.meta ≡ some (meta_record src celex call (without_rdf d)))
    × All (λ r. asks_for_text r ≡ true) again.0.0
    × (length again.0.0 ≤ 2)

saved-FetchesAgain :
    (src : Source) (celex : Text) (first call : FetchCall) (folder : Folder) (d : Document)
    → (fetch_manifestation src d.expression_uri none).1 ≡ fetched (without_rdf d)
    → FetchesAgain src celex d (saved src celex first d folder) call
unfolding fetch_document get_document kept_after saved
saved-FetchesAgain src celex first call folder d h =
    let asks = fetch_manifestation-asks src d.expression_uri none in
    let again = ap (kept_after src celex call (saved src celex first d folder)) h in
    (
      h,
      (ap (λ a. a.rdf) again, ap (λ a. a.xhtml) again, ap (λ a. a.body) again, ap cached_uri again),
      ap (λ a. a.meta) again,
      asks.0,
      asks.1,
    )

-- A document that was fetched once, whether its graph was read or not, is fetched again from its folder
-- by at most two requests, none of them for the graph: the result is the same but for the graph, and
-- rdf.xml, source.xhtml, text.txt and the URI stay as they were. The new meta.json describes the second
-- call, without the size of a graph.
pub fetch_document_cached :
    (src : Source) (celex : Text) (first call : FetchCall) (refresh : Bool) (folder : Folder)
    {d : Document}
    → (fetch_document src celex first refresh folder).0.1 ≡ fetched d
    → FetchesAgain src celex d (fetch_document src celex first refresh folder).1 call
unfolding fetch_document
fetch_document_cached src celex first call refresh folder {d} h =
    subst (λ f. FetchesAgain src celex d f call) (sym (ap (kept_after src celex first folder) h))
      (saved-FetchesAgain src celex first call folder d
        (get_document-again src celex (if refresh then none else cached_uri folder) h))
