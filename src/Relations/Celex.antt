-- ===== src/Relations/Celex.antt =====
-- What `normalize_identifier` returns for a citation, and for any text.
use compliance_wizard_engine.Prelude.{
  ℕ, ◌/◌, ◌≤◌, ◌≡◌, refl, true, false, Bool-cases, inl, inr, Option-cases, [], ◌∷◌, Text, is_nil,
  strip, is_space, is_digit, is_upper, arith,
}
use compliance_wizard_engine.Relations.Identifiers.{
  Kind, regulation, directive, decision, type_letter, is_three, is_celex, digit, four_digits,
  year_digits, is_year, year_and_number, full_year, celex_of, slug, citation, normalize_identifier,
}

-- Of two numbers of which just one can be a year, the order does not matter: "2014/35" and
-- "35/2014" are one identifier.
pub celex_of_comm :
    (kind : Kind) (a b : ℕ)
    → is_year a ≡ true
    → is_year b ≡ false
    → celex_of kind a b ≡ celex_of kind b a
unfolding celex_of year_and_number
celex_of_comm kind a b year other = ground arith

celex_ne_nil : (s : Text) → is_celex s ≡ true → is_nil s ≡ false
unfolding is_celex
celex_ne_nil [] h = cc
celex_ne_nil (c ∷ s) h = refl

-- The identifier is never empty, whatever the text.
pub normalize_identifier-ne_nil : (s : Text) → is_nil (normalize_identifier s) ≡ false
unfolding normalize_identifier celex_of slug
normalize_identifier-ne_nil s = elim (Bool-cases (is_celex (strip s))) [
  | inl e ↦ rw e (celex_ne_nil (strip s) e)
  | inr e ↦ elim (Option-cases (citation (strip s))) [ inl f ↦ rw (e, f) | inr f ↦ rw (e, f.1) ]
]

digit-is_digit : (n : ℕ) → is_digit (digit n) ≡ true
unfolding is_digit
digit-is_digit n = ground arith

digit_not_space : (n : ℕ) → is_space (digit n) ≡ false
unfolding is_space
digit_not_space n = ground arith

letter_is_upper : (k : Kind) → is_upper (type_letter k) ≡ true
unfolding is_upper type_letter
letter_is_upper regulation = refl
letter_is_upper directive = refl
letter_is_upper decision = refl

four_digit_year : (y : ℕ) → 1000 ≤ y → year_digits y ≡ four_digits y
unfolding year_digits
four_digit_year y h = ground arith

abbrev canonical : Kind → ℕ → ℕ → Text
canonical k y n =
    b'3'
    ∷ digit (y / 1000)
    ∷ digit (y / 100)
    ∷ digit (y / 10)
    ∷ digit y
    ∷ type_letter k
    ∷ digit (n / 1000)
    ∷ digit (n / 100)
    ∷ digit (n / 10)
    ∷ digit n
    ∷ []

canonical-is_celex : (k : Kind) (y n : ℕ) → is_celex (canonical k y n) ≡ true
unfolding is_celex is_three
canonical-is_celex k y n = simp (digit-is_digit, letter_is_upper)

three_not_space : is_space b'3' ≡ false
unfolding is_space
three_not_space = refl

strip-canonical : (k : Kind) (y n : ℕ) → strip (canonical k y n) ≡ canonical k y n
unfolding strip
strip-canonical k y n = simp (three_not_space, digit_not_space)

celex_of-canonical :
    (k : Kind) (a b : ℕ)
    → 1000 ≤ full_year (year_and_number a b).0
    → celex_of k a b ≡ canonical k (full_year (year_and_number a b).0) (year_and_number a b).1
unfolding celex_of four_digits
celex_of-canonical k a b h = rw (four_digit_year (full_year (year_and_number a b).0) h)

-- An identifier with a year of four digits is a CELEX id, and is its own identifier: a mention of
-- it and the citation that it stands for lead to one regulation.
pub normalize_identifier-celex_of :
    (k : Kind) (a b : ℕ)
    → 1000 ≤ full_year (year_and_number a b).0
    → (is_celex (celex_of k a b) ≡ true) × (normalize_identifier (celex_of k a b) ≡ celex_of k a b)
unfolding normalize_identifier
normalize_identifier-celex_of k a b h =
    let (y, n) = year_and_number a b in
    rw (celex_of-canonical k a b h) (
      canonical-is_celex k (full_year y) n,
      rw (strip-canonical k (full_year y) n) (rw (canonical-is_celex k (full_year y) n)),
    )
