-- ===== src/Reading/Kept.antt =====
-- What the segments keep of the document's text.
use mathlib.Core.List.{append_assoc}
use compliance_wizard_engine.Prelude.{
  ℕ, suc, ◌≡◌, ◌≢◌, refl, subst, ap, ◌∙◌, true, false, not, is_some, List, [], ◌∷◌, ◌++◌, map, All,
  Text, text, joined, strip, is_nil, keep, arith, Bool-cases, inl, inr,
}
use compliance_wizard_engine.Schemas.{TextSegment}
use compliance_wizard_engine.Reading.{
  Piece, Draft, finish, opened, extended, opens, segments_from, segments_of, split_lines, lines_of,
  line_piece, segment_text, blocks_of, block_piece, read_pages,
}
use compliance_wizard_engine.Reading.Solid.{IsSolid, strip-solid, strip-IsSolid, append-IsSolid}

abbrev nl : Text
nl = text "\n"

joined-cons : (t : Text) (ts : List Text) → ts ≢ [] → joined nl (t ∷ ts) ≡ t ++ (nl ++ joined nl ts)
unfolding joined
joined-cons t [] h = absurd (h refl)
joined-cons t (u ∷ ts) h = refl

joined-merge :
    (a b : Text) (ts : List Text) → joined nl ((a ++ (nl ++ b)) ∷ ts) ≡ joined nl (a ∷ b ∷ ts)
unfolding joined
joined-merge a b [] = refl
joined-merge a b (t ∷ ts) = append_assoc a (10 ∷ b) (10 ∷ joined nl (t ∷ ts))

-- A text with a character, and no white space at its ends.
abbrev IsLine : Text → Type 0
IsLine t = IsSolid t × (t ≢ [])

-- The segments from index i on are numbered one after the other.
abbrev pub IsNumbered : ℕ → List TextSegment → Type 0
IsNumbered i [] = Unit
IsNumbered i (s ∷ segs) = (s.segment_index ≡ i) × IsNumbered (suc i) segs

abbrev IsTitled : TextSegment → Type 0
IsTitled s = is_some s.section_title ≡ true

-- All but the first segment have a title.
abbrev pub TitledAfter : List TextSegment → Type 0
TitledAfter [] = Unit
TitledAfter (s ∷ segs) = All IsTitled segs

abbrev pub bodies : List TextSegment → List Text
bodies segs = map (λ s. s.body) segs

segments_from-ne_nil : (c : Draft) (i : ℕ) (ps : List Piece) → bodies (segments_from c i ps) ≢ []
unfolding segments_from
segments_from-ne_nil c i [] h = cc
segments_from-ne_nil c i (p ∷ ps) h = elim (Bool-cases (opens p)) [
  | inl e ↦ cc (rw e at h)
  | inr e ↦ segments_from-ne_nil (extended c p) i ps (rw e at h)
]

append-ne_nil : (s t : Text) → s ≢ [] → s ++ t ≢ []
append-ne_nil [] t h e = h refl
append-ne_nil (c ∷ s) t h e = cc

segments_from-text :
    (c : Draft) (i : ℕ) (ps : List Piece)
    → IsLine c.body
    → All (λ p. IsLine p.body) ps
    → joined nl (bodies (segments_from c i ps)) ≡ joined nl (c.body ∷ map (λ p. p.body) ps)
unfolding segments_from finish joined
segments_from-text c i [] h k = strip-solid c.body h.0
segments_from-text c i (p ∷ ps) h k = elim (Bool-cases (opens p)) [
  | inl e ↦
      let rest = segments_from-text (opened p) (suc i) ps k.0 k.1 in
      rw e (
        ap (λ t. joined nl (t ∷ bodies (segments_from (opened p) (suc i) ps)))
          (strip-solid c.body h.0)
        ∙ (joined-cons c.body _ (segments_from-ne_nil (opened p) (suc i) ps)
            ∙ ap (λ t. c.body ++ (nl ++ t)) rest))
  | inr e ↦
      let solid = append-IsSolid c.body p.body h.1 k.0.1 h.0 k.0.0 in
      let long = append-ne_nil c.body (10 ∷ p.body) h.1 in
      rw e (
        segments_from-text (extended c p) i ps (solid, long) k.1
        ∙ joined-merge c.body p.body (map (λ q. q.body) ps))
]

segments_from-IsNumbered :
    (c : Draft) (i : ℕ) (ps : List Piece) → IsNumbered i (segments_from c i ps)
unfolding segments_from finish
segments_from-IsNumbered c i [] = (refl, tt)
segments_from-IsNumbered c i (p ∷ ps) = elim (Bool-cases (opens p)) [
  | inl e ↦ rw e (refl, segments_from-IsNumbered (opened p) (suc i) ps)
  | inr e ↦ rw e (segments_from-IsNumbered (extended c p) i ps)
]

is_some-heading : (p : Piece) → opens p ≡ true → is_some p.heading ≡ true
is_some-heading p h = ground arith

segments_from-IsTitled :
    (c : Draft) (i : ℕ) (ps : List Piece)
    → TitledAfter (segments_from c i ps)
      × (is_some c.title ≡ true → All IsTitled (segments_from c i ps))
unfolding segments_from finish
segments_from-IsTitled c i [] = (tt, λ h. (h, tt))
segments_from-IsTitled c i (p ∷ ps) = elim (Bool-cases (opens p)) [
  | inl e ↦
      let rest = (segments_from-IsTitled (opened p) (suc i) ps).1 (is_some-heading p e) in
      rw e (rest, λ h. (h, rest))
  | inr e ↦ rw e (segments_from-IsTitled (extended c p) i ps)
]

-- The segments hold these texts, in order and joined by line breaks as they were, are numbered from
-- 0 on, and all but the first have a title.
pub record Keeps (texts : List Text) (segs : List TextSegment) : Type 0 where
  pub whole : joined nl (bodies segs) ≡ joined nl texts
  pub numbered : IsNumbered 0 segs
  pub titled : TitledAfter segs

segments_of-Keeps :
    (ps : List Piece) → All (λ p. IsLine p.body) ps → Keeps (map (λ p. p.body) ps) (segments_of ps)
unfolding segments_of
segments_of-Keeps [] h = record { whole = refl; numbered = tt; titled = tt }
segments_of-Keeps (p ∷ ps) h = record {
  whole = segments_from-text (opened p) 0 ps h.0 h.1;
  numbered = segments_from-IsNumbered (opened p) 0 ps;
  titled = (segments_from-IsTitled (opened p) 0 ps).0;
}

not_nil : (t : Text) → is_nil t ≡ false → t ≢ []
not_nil [] h e = cc
not_nil (c ∷ t) h e = cc

stripped-lines : (ts : List Text) → All IsLine (keep (λ l. not (is_nil l)) (map strip ts))
stripped-lines [] = tt
stripped-lines (t ∷ ts) = elim (Bool-cases (is_nil (strip t))) [
  | inl e ↦ rw e (stripped-lines ts)
  | inr e ↦ rw e ((strip-IsSolid t, not_nil (strip t) e), stripped-lines ts)
]

stripped-blocks : (bs : List (ℕ × Text)) → All (λ b. IsLine b.1) (blocks_of bs)
unfolding blocks_of
stripped-blocks [] = tt
stripped-blocks (b ∷ bs) = elim (Bool-cases (is_nil (strip b.1))) [
  | inl e ↦ rw e (stripped-blocks bs)
  | inr e ↦ rw e ((strip-IsSolid b.1, not_nil (strip b.1) e), stripped-blocks bs)
]

line_piece-IsLine :
    (ls : List Text)
    → All IsLine ls
    → All (λ p. IsLine p.body) (map line_piece ls) × (map (λ p. p.body) (map line_piece ls) ≡ ls)
unfolding line_piece
line_piece-IsLine [] h = (tt, refl)
line_piece-IsLine (l ∷ ls) h =
    let rest = line_piece-IsLine ls h.1 in ((h.0, rest.0), ap (λ r. l ∷ r) rest.1)

block_piece-IsLine :
    (bs : List (ℕ × Text))
    → All (λ b. IsLine b.1) bs
    → All (λ p. IsLine p.body) (map block_piece bs)
      × (map (λ p. p.body) (map block_piece bs) ≡ map (λ b. b.1) bs)
unfolding block_piece
block_piece-IsLine [] h = (tt, refl)
block_piece-IsLine (b ∷ bs) h =
    let rest = block_piece-IsLine bs h.1 in ((h.0, rest.0), ap (λ r. b.1 ∷ r) rest.1)

-- Splitting a plain text or the blocks of a document's pages into segments loses no text and changes
-- no order: the segments' texts, joined by line breaks, are the stripped lines (or blocks) that are
-- not empty, joined likewise; the segments are numbered from 0, and only the first can be untitled.
pub segmentation-Keeps :
    (s : Text) (blocks : List (ℕ × Text))
    → Keeps (lines_of s) (segment_text s)
      × Keeps (map (λ b. b.1) (blocks_of blocks)) (read_pages blocks)
unfolding segment_text lines_of read_pages
segmentation-Keeps s blocks =
    let lines = line_piece-IsLine (lines_of s) (stripped-lines (split_lines [] s)) in
    let pages = block_piece-IsLine (blocks_of blocks) (stripped-blocks blocks) in
    (
      subst (λ ts. Keeps ts (segments_of (map line_piece (lines_of s)))) lines.1
          (segments_of-Keeps (map line_piece (lines_of s)) lines.0),
      subst (λ ts. Keeps ts (segments_of (map block_piece (blocks_of blocks)))) pages.1
          (segments_of-Keeps (map block_piece (blocks_of blocks)) pages.0),
    )
