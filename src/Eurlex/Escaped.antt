-- ===== src/Eurlex/Escaped.antt =====
-- A term of a search stays a term: SPARQL reads the escaped text back as it was.
use compliance_wizard_engine.Prelude.{
  ℕ, ◌≡◌, refl, Bool, true, false, ◌||◌, Option, none, some, [], ◌∷◌, ◌++◌, Text, ◌==◌, nat_eq,
  if◌then◌else◌, arith,
}
use compliance_wizard_engine.Eurlex.Search.{doubled, quoted, escape}

-- How SPARQL reads a string literal behind its opening quote: its text, and what follows the closing
-- quote. A backslash stands before a quote or a backslash that belongs to the text.
abbrev put_first : ℕ → Option (Text × Text) → Option (Text × Text)
put_first c none = none
put_first c (some (s, rest)) = some (c ∷ s, rest)

unfoldable pub read_literal : Bool → Text → Option (Text × Text)
read_literal escaped [] = none
read_literal true (c ∷ s) =
    let rest = read_literal false s in if c == b'"' || c == b'\\' then put_first c rest else none
read_literal false (c ∷ s) =
    let inside = read_literal true s in
    let rest = read_literal false s in
    if c == b'"' then some ([], s) else if c == b'\\' then inside else put_first c rest

-- A term, whatever its characters, is read back from its escaped form as it was, and the literal ends
-- at the quote that the query puts behind it: no term can close the literal and add to the query.
pub read_literal-escape :
    (term rest : Text) → read_literal false (escape term ++ (b'"' ∷ rest)) ≡ some (term, rest)
unfolding escape doubled quoted read_literal
read_literal-escape [] rest = refl
read_literal-escape (c ∷ term) rest = ground (arith, read_literal-escape term rest)
