-- ===== src/Relations/Identifiers.antt =====
-- `normalize_identifier` of engine/relationship_resolver.py, with its two patterns written as scans.
use compliance_wizard_engine.Prelude.{
  ℕ, ◌+◌, ◌/◌, ◌%◌, Bool, true, false, ◌&&◌, not, Option, none, some, List, [], ◌∷◌, ◌++◌, Text,
  text, strip, strip_by, lower, upper, starts_with, is_digit, is_upper, is_alnum, number_from,
  take_while, drop_while, take, drop, length, leb, ltb, ◌==◌, nat_eq, if◌then◌else◌, is_empty,
}

pub data Kind : Type 0 where
  regulation directive decision : Kind

-- _TYPE_LETTER
unfoldable pub type_letter : Kind → ℕ
type_letter regulation = b'R'
type_letter directive = b'L'
type_letter decision = b'D'

unfoldable pub is_three : ℕ → Bool
is_three c = c == b'3'

-- The whole text matches one class after the other.
unfoldable pub matches : List (ℕ → Bool) → Text → Bool
matches [] [] = true
matches (p ∷ ps) (c ∷ s) = p c && matches ps s
matches _ _ = false

abbrev pub celex_pattern : List (ℕ → Bool)
celex_pattern =
    is_three ∷ is_digit ∷ is_digit ∷ is_digit ∷ is_digit ∷ is_upper ∷ is_digit ∷ is_digit ∷ is_digit
    ∷ is_digit ∷ []

-- `re.fullmatch(r"3\d{4}[A-Z]\d{4}", s)`
unfoldable pub is_celex : Text → Bool
unfolding matches
is_celex s = matches celex_pattern s

abbrev pub not_digit : ℕ → Bool
not_digit c = not (is_digit c)

-- A kind at the start of a text, whatever its case, with what follows it.
unfoldable pub kind_at : Text → Option (Kind × Text)
kind_at s =
    let l = lower s in
    if starts_with l (text "regulation")
    then some (regulation, drop 10 s)
    else if starts_with l (text "directive")
    then some (directive, drop 9 s)
    else if starts_with l (text "decision")
    then some (decision, drop 8 s)
    else none

-- `(\d{1,4})/(\d{1,4})` at the first digit: a longer run of digits in front of the slash fails.
unfoldable pub slashed : Text → Text → Option (ℕ × ℕ)
slashed a (c ∷ s) =
    let b = take 4 (take_while is_digit s) in
    if not (is_empty a) && leb (length a) 4 && c == b'/' && not (is_empty b)
    then some (number_from 0 a, number_from 0 b)
    else none
slashed a [] = none

unfoldable pub numbers_at : Text → Option (ℕ × ℕ)
unfolding slashed
numbers_at s =
    let t = drop_while not_digit s in slashed (take_while is_digit t) (drop_while is_digit t)

unfoldable pub citation_at : Text → Option (Kind × ℕ × ℕ)
unfolding kind_at numbers_at
citation_at s = elim (kind_at s) [
  | none ↦ none
  | some (kind, rest) ↦ elim (numbers_at rest) [ none ↦ none | some (a, b) ↦ some (kind, a, b) ]
]

-- `re.search`: the leftmost place where the pattern matches.
unfoldable pub citation : Text → Option (Kind × ℕ × ℕ)
unfolding citation_at
citation [] = none
citation (c ∷ s) =
    let rest = citation s in elim (citation_at (c ∷ s)) [ none ↦ rest | some found ↦ some found ]

abbrev pub digit : ℕ → ℕ
digit n = b'0' + n % 10

-- `{num:04d}` below ten thousand
unfoldable pub four_digits : ℕ → Text
four_digits n = digit (n / 1000) ∷ digit (n / 100) ∷ digit (n / 10) ∷ digit n ∷ []

-- `{year}`, from a hundred up to below ten thousand
unfoldable pub year_digits : ℕ → Text
unfolding four_digits
year_digits y =
    if ltb y 1000 then digit (y / 100) ∷ digit (y / 10) ∷ digit y ∷ [] else four_digits y

abbrev pub is_year : ℕ → Bool
is_year n = leb 1958 n && leb n 2099

-- Which part is the year, and which the number.
unfoldable pub year_and_number : ℕ → ℕ → ℕ × ℕ
year_and_number a b = if is_year b && not (is_year a) then (b, a) else (a, b)

unfoldable pub full_year : ℕ → ℕ
full_year y = if ltb y 100 then (if leb 70 y then y + 1900 else y + 2000) else y

unfoldable pub celex_of : Kind → ℕ → ℕ → Text
celex_of kind a b =
    let (year, num) = year_and_number a b in
    b'3' ∷ (year_digits (full_year year) ++ (type_letter kind ∷ four_digits num))

-- `re.sub(r"[^A-Za-z0-9]+", "-", s)`; the flag says that the last character was replaced.
unfoldable pub dashed : Bool → Text → Text
dashed replaced [] = []
dashed replaced (c ∷ s) =
    let rest = dashed (not (is_alnum c)) s in
    if is_alnum c then c ∷ rest else if replaced then rest else b'-' ∷ rest

abbrev pub is_dash : ℕ → Bool
is_dash c = c == b'-'

unfoldable pub slug : Text → Text
unfolding dashed
slug s = text "MENTION:" ++ upper (strip_by is_dash (dashed false s))

unfoldable pub normalize_identifier : Text → Text
normalize_identifier mention =
    let s = strip mention in
    if is_celex s
    then s
    else elim (citation s) [ none ↦ slug s | some (kind, a, b) ↦ celex_of kind a b ]
