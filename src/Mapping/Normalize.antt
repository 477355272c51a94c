-- ===== src/Mapping/Normalize.antt =====
-- agents/mapping_agent.py: the helpers that normalize a parameter's name, an operator, a type hint
-- and a value (`_norm_param`, `_norm_operator`, `_norm_vtype`, `_parse_bool`, `_parse_enum`, _NUM).
use compliance_wizard_engine.Prelude.{
  ℕ, zero, suc, ◌-◌, Bool, true, false, ◌&&◌, ◌||◌, not, Option, none, some, List, [], ◌∷◌, ◌++◌,
  map, Text, text, is_nil, is_digit, is_space, lower, strip, strip_by, contains, keep, length,
  is_empty, take_while, drop_while, ◌==◌, nat_eq, text_eq, if◌then◌else◌, or_else,
}
use compliance_wizard_engine.Vocabulary.{AttributeValueType, range, enum, boolean}

-- A dict as the list of its items.
unfoldable pub lookup : {A : Type 0} → Text → List (Text × A) → Option A
lookup key [] = none
lookup key ((k, v) ∷ items) = if k == key then some v else lookup key items

abbrev pub is_hyphen : ℕ → Bool
is_hyphen c = c == b'-'

-- `re.sub(r"[\s\-]+", "_", s)`; the flag says that the last character was replaced.
unfoldable pub underscored : Bool → Text → Text
underscored replaced [] = []
underscored replaced (c ∷ s) =
    let separates = is_space c || is_hyphen c in
    let rest = underscored separates s in
    if not separates then c ∷ rest else if replaced then rest else b'_' ∷ rest

unfoldable pub norm_param : Text → Text
unfolding underscored
norm_param name = underscored false (lower (strip name))

-- _VALID_OPS
abbrev pub valid_ops : List Text
valid_ops =
    text ">"
    ∷ text "<"
    ∷ text ">="
    ∷ text "<="
    ∷ text "=="
    ∷ text "in"
    ∷ text "not_in"
    ∷ text "contains"
    ∷ []

-- _OP_SYNONYMS, the spellings of one operator together
abbrev pub op_synonyms : List (Text × List Text)
op_synonyms =
    (text "between", text "between" ∷ text "range" ∷ text "within" ∷ text "from-to" ∷ [])
    ∷ (
      text ">",
      text "greater than" ∷ text "more than" ∷ text "above" ∷ text "over" ∷ text "gt" ∷ [],
    )
    ∷ (
      text ">=",
      text "≥" ∷ text "at least" ∷ text "min" ∷ text "minimum" ∷ text "gte" ∷ text "=>" ∷ [],
    )
    ∷ (text "<", text "less than" ∷ text "below" ∷ text "under" ∷ text "lt" ∷ [])
    ∷ (
      text "<=",
      text "≤" ∷ text "at most" ∷ text "max" ∷ text "maximum" ∷ text "lte" ∷ text "=<" ∷ [],
    )
    ∷ (
      text "==",
      text "equal" ∷ text "equals" ∷ text "equal to" ∷ text "is" ∷ text "=" ∷ text "eq" ∷ [],
    )
    ∷ (text "in", text "one of" ∷ text "any of" ∷ text "includes" ∷ text "member of" ∷ [])
    ∷ (text "not_in", text "none of" ∷ text "excludes" ∷ text "not one of" ∷ [])
    ∷ []

-- `SYNONYMS.get(s)`
unfoldable pub synonym_of : {A : Type 0} → Text → List (A × List Text) → Option A
synonym_of s [] = none
synonym_of s ((a, spellings) ∷ groups) =
    if contains s spellings then some a else synonym_of s groups

unfoldable pub norm_operator : Text → Text
unfolding synonym_of
norm_operator op =
    let s = lower (strip op) in
    if contains s valid_ops then s else or_else (synonym_of s op_synonyms) s

-- _VTYPE_SYNONYMS
abbrev pub vtype_synonyms : List (AttributeValueType × List Text)
vtype_synonyms =
    (
      range,
      text "range"
          ∷ text "numeric"
          ∷ text "number"
          ∷ text "float"
          ∷ text "int"
          ∷ text "integer"
          ∷ text "decimal"
          ∷ text "measurement"
          ∷ [],
    )
    ∷ (
      enum,
      text "enum"
          ∷ text "categorical"
          ∷ text "category"
          ∷ text "list"
          ∷ text "set"
          ∷ text "choice"
          ∷ text "string"
          ∷ text "str"
          ∷ text "text"
          ∷ [],
    )
    ∷ (boolean, text "boolean" ∷ text "bool" ∷ text "flag" ∷ [])
    ∷ []

unfoldable pub norm_vtype : Option Text → Option AttributeValueType
unfolding synonym_of
norm_vtype none = none
norm_vtype (some hint) =
    if is_nil hint then none else synonym_of (lower (strip hint)) vtype_synonyms

unfoldable pub parse_bool : Text → Option Bool
parse_bool value =
    let s = lower (strip value) in
    if contains s (text "true" ∷ text "yes" ∷ text "1" ∷ text "present" ∷ text "required" ∷ [])
    then some true
    else if contains s
        (text "false" ∷ text "no" ∷ text "0" ∷ text "absent" ∷ text "not required" ∷ [])
    then some false
    else none

abbrev pub is_bracket : ℕ → Bool
is_bracket c = c == b'[' || c == b']'

abbrev pub is_quote : ℕ → Bool
is_quote c = c == 39 || c == 34

abbrev pub is_separator : ℕ → Bool
is_separator c = c == b';' || c == b','

-- A character in front of the first part.
abbrev pub cons_first : ℕ → List Text → List Text
cons_first c [] = (c ∷ []) ∷ []
cons_first c (part ∷ parts) = (c ∷ part) ∷ parts

-- `re.split(r"[;,]", s)`
unfoldable pub split_parts : Text → List Text
split_parts [] = [] ∷ []
split_parts (c ∷ s) =
    let parts = split_parts s in if is_separator c then [] ∷ parts else cons_first c parts

abbrev pub not_blank : Text → Bool
not_blank part = not (is_nil (strip part))

unfoldable pub parse_enum : Text → List Text
unfolding split_parts
parse_enum value =
    map (λ part. strip_by is_quote (strip part))
      (keep not_blank (split_parts (strip_by is_bracket (strip value))))

-- `\d+(?:\.\d+)?` at the start of a text
unfoldable pub unsigned_at : Text → Text
unsigned_at s =
    let whole = take_while is_digit s in
    elim (drop_while is_digit s) [
      | [] ↦ whole
      | c ∷ rest ↦
          let frac = take_while is_digit rest in
          if is_empty whole
          then []
          else if c == b'.' && not (is_empty frac)
          then whole ++ (c ∷ frac)
          else whole
    ]

-- _NUM at the start of a text; empty where it does not match
unfoldable pub numeral_at : Text → Text
unfolding unsigned_at
numeral_at [] = []
numeral_at (c ∷ s) =
    let n = unsigned_at s in
    if is_hyphen c then (if is_nil n then [] else c ∷ n) else unsigned_at (c ∷ s)

-- `_NUM.findall(s)`, after skipping the rest of the last match
unfoldable pub numerals : ℕ → Text → List Text
unfolding numeral_at
numerals skip [] = []
numerals (suc skip) (c ∷ s) = numerals skip s
numerals zero (c ∷ s) =
    let n = numeral_at (c ∷ s) in
    let rest = numerals (length n - 1) s in if is_nil n then rest else n ∷ rest
