-- ===== src/Fetching/Refusals.antt =====
-- What pydantic accepts of an answer, said without the code that builds the output.
use compliance_wizard_engine.Prelude.{
  ℕ, ◌≡◌, ◌∙◌, refl, Bool, true, false, ◌&&◌, Option, none, some, is_some, List, [], ◌∷◌, Text,
  text, any, ◌==◌, text_eq, Floats, arith, ◌>>=◌,
}
use compliance_wizard_engine.Extracting.Json.{
  Json, null, bool, number, string, array, object, list_of,
}
use compliance_wizard_engine.Ui.Corrections.{parse_relation_type}
use compliance_wizard_engine.Fetching.{
  RawRelationship, Meta, read_all, as_text, as_optional, as_texts, as_relation_type,
  relationship_of, output_of,
}

-- The six relation types.
abbrev pub relation_names : List Text
relation_names =
    text "amends"
    ∷ text "amended_by"
    ∷ text "references"
    ∷ text "supersedes"
    ∷ text "superseded_by"
    ∷ text "related"
    ∷ []

abbrev pub every : {A : Type 0} → (A → Bool) → List A → Bool
every test [] = true
every test (x ∷ xs) = test x && every test xs

-- A chain of readings succeeds if each of them does.
bind_read :
    {A B : Type 0} (o : Option A) (f : A → Option B) (b : Bool)
    → ((a : A) → is_some (f a) ≡ b)
    → is_some (o >>= f) ≡ (is_some o && b)
bind_read none f b h = refl
bind_read (some a) f b h = h a

last_read : {A B : Type 0} (o : Option A) (f : A → B) → is_some (o >>= λ a. some (f a)) ≡ is_some o
last_read none f = refl
last_read (some a) f = refl

read_all_read :
    {A B : Type 0} (read : A → Option B) (test : A → Bool) (xs : List A)
    → ((x : A) → is_some (read x) ≡ test x)
    → is_some (read_all read xs) ≡ every test xs
unfolding read_all
read_all_read read test [] h = refl
read_all_read read test (x ∷ xs) h = ground (arith, h x, read_all_read read test xs h)

module _ {F : Type 0} where
  abbrev pub is_text : Json F → Bool
  is_text (string s) = true
  is_text _ = false

  abbrev pub is_relation_name : Json F → Bool
  is_relation_name (string s) = any (λ n. s == n) relation_names
  is_relation_name _ = false

  -- Not there, or null, or a value that passes.
  abbrev pub is_absent_or : (Json F → Bool) → Option (Json F) → Bool
  is_absent_or test none = true
  is_absent_or test (some null) = true
  is_absent_or test (some x) = test x

  abbrev pub is_text_list : Option (Json F) → Bool
  is_text_list none = true
  is_text_list (some (array shown items)) = every is_text (list_of items)
  is_text_list (some _) = false

  text_read : (x : Json F) → is_some (as_text x) ≡ is_text x
  unfolding as_text
  text_read (string s) = refl
  text_read null = refl
  text_read (bool b) = refl
  text_read (number f i shown t) = refl
  text_read (array shown items) = refl
  text_read (object shown m) = refl

  relation_read : (x : Json F) → is_some (as_relation_type x) ≡ is_relation_name x
  unfolding as_relation_type as_text parse_relation_type
  relation_read (string s) = ground arith
  relation_read null = refl
  relation_read (bool b) = refl
  relation_read (number f i shown t) = refl
  relation_read (array shown items) = refl
  relation_read (object shown m) = refl

  present :
      {A : Type 0} (read : Json F → Option A) (test : Json F → Bool) (x : Json F)
      → ((y : Json F) → is_some (read y) ≡ test y)
      → is_some (read x >>= λ a. some (some a)) ≡ test x
  present read test x h = last_read (read x) some ∙ h x

  optional_read :
      {A : Type 0} (read : Json F → Option A) (test : Json F → Bool) (x : Option (Json F))
      → ((y : Json F) → is_some (read y) ≡ test y)
      → is_some (as_optional read x) ≡ is_absent_or test x
  unfolding as_optional
  optional_read read test none h = refl
  optional_read read test (some null) h = refl
  optional_read read test (some (string s)) h = present read test (string s) h
  optional_read read test (some (bool b)) h = present read test (bool b) h
  optional_read read test (some (number f i shown t)) h = present read test (number f i shown t) h
  optional_read read test (some (array shown items)) h = present read test (array shown items) h
  optional_read read test (some (object shown m)) h = present read test (object shown m) h

  list_read : (x : Option (Json F)) → is_some (as_texts x) ≡ is_text_list x
  unfolding as_texts
  list_read none = refl
  list_read (some (array shown items)) = read_all_read as_text is_text (list_of items) text_read
  list_read (some null) = refl
  list_read (some (bool b)) = refl
  list_read (some (number f i shown t)) = refl
  list_read (some (string s)) = refl
  list_read (some (object shown m)) = refl

module _ {F : Type 0} ⦃fl : Floats F⦄ where
  -- A text, one of the six types, and a confidence from 0 to 1.
  abbrev pub is_relationship : RawRelationship F → Bool
  is_relationship r =
      is_text r.target
      && is_relation_name r.relation_type
      && fl.fle (fl.milli 0) r.confidence
      && fl.fle r.confidence (fl.milli 1000)

  -- The history is a list of texts, the dates are dates and the reference a text, each of them if it
  -- is there, and so is each relationship.
  abbrev pub is_accepted : (Json F → Option ℕ) → Meta F → Bool
  is_accepted as_date meta =
      is_text_list meta.amendment_history
      && is_absent_or (λ x. is_some (as_date x)) meta.publication_date
      && is_absent_or (λ x. is_some (as_date x)) meta.entry_into_force_date
      && is_absent_or is_text meta.oj_reference
      && every is_relationship meta.api_sourced_relationships

  relationship_read : (r : RawRelationship F) → is_some (relationship_of r) ≡ is_relationship r
  unfolding relationship_of
  relationship_read r = ground (arith, text_read r.target, relation_read r.relation_type)

  pub output_read :
      (as_date : Json F → Option ℕ) (meta : Meta F)
      → is_some (output_of as_date meta) ≡ is_accepted as_date meta
  unfolding output_of
  output_read as_date meta = ground (
    arith,
    list_read meta.amendment_history,
    optional_read as_date (λ x. is_some (as_date x)) meta.publication_date (λ y. refl),
    optional_read as_date (λ x. is_some (as_date x)) meta.entry_into_force_date (λ y. refl),
    optional_read as_text is_text meta.oj_reference text_read,
    read_all_read relationship_of is_relationship meta.api_sourced_relationships relationship_read,
  )
