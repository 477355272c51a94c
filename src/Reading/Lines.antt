-- ===== src/Reading/Lines.antt =====
-- Lines read again from their joined text are the same lines.
use mathlib.Core.List.{append_assoc, append-nil, reverse, reverse-cons}
use compliance_wizard_engine.Prelude.{
  ◌≡◌, refl, sym, ap, ◌∙◌, false, not, List, [], ◌∷◌, ◌++◌, map, All, All-map, any, any-append,
  keep, Text, text, joined, strip, strip_by, drop_while, is_space, is_nil, arith, Bool-cases, inl,
  inr,
}
use compliance_wizard_engine.Reading.{is_line_break, split_lines, lines_of}
use compliance_wizard_engine.Reading.Solid.{IsSolid, strip-solid, strip-IsSolid}

-- A text without a line boundary.
abbrev IsUnbroken : Text → Type 0
IsUnbroken t = any is_line_break t ≡ false

split_lines-IsUnbroken : (s cur : Text) → IsUnbroken cur → All IsUnbroken (split_lines cur s)
unfolding split_lines
split_lines-IsUnbroken [] cur h = (h, tt)
split_lines-IsUnbroken (c ∷ s) cur h = elim (Bool-cases (is_line_break c)) [
  | inl e ↦ rw e (h, split_lines-IsUnbroken s [] refl)
  | inr e ↦ rw e (
      split_lines-IsUnbroken s (cur ++ c ∷ [])
        (ground (arith, any-append is_line_break cur (c ∷ []))))
]

any-drop_while : (t : Text) → IsUnbroken t → IsUnbroken (drop_while is_space t)
unfolding drop_while
any-drop_while [] h = refl
any-drop_while (c ∷ t) h = ground (arith, any-drop_while t)

any-reverse : (t : Text) → any is_line_break (reverse t) ≡ any is_line_break t
any-reverse [] = refl
any-reverse (c ∷ t) =
    rw (reverse-cons c t)
      (ground (arith, any-append is_line_break (reverse t) (c ∷ []), any-reverse t))

strip-IsUnbroken : (t : Text) → IsUnbroken t → IsUnbroken (strip t)
unfolding strip strip_by
strip-IsUnbroken t h =
    let start = drop_while is_space t in
    any-reverse (drop_while is_space (reverse start))
    ∙ any-drop_while (reverse start) (any-reverse start ∙ any-drop_while t h)

-- What `lines_of` gives: stripped lines that are not empty.
abbrev IsRead : Text → Type 0
IsRead t = IsUnbroken t × IsSolid t × (is_nil t ≡ false)

lines-IsRead :
    (ts : List Text) → All IsUnbroken ts → All IsRead (keep (λ l. not (is_nil l)) (map strip ts))
lines-IsRead [] h = tt
lines-IsRead (t ∷ ts) h = elim (Bool-cases (is_nil (strip t))) [
  | inl e ↦ rw e (lines-IsRead ts h.1)
  | inr e ↦ rw e ((strip-IsUnbroken t h.0, strip-IsSolid t, e), lines-IsRead ts h.1)
]

split_lines-line :
    (t cur s : Text)
    → IsUnbroken t
    → split_lines cur (t ++ (10 ∷ s)) ≡ (cur ++ t) ∷ split_lines [] s
unfolding split_lines is_line_break
split_lines-line [] cur s h = ap (λ l. l ∷ split_lines [] s) (sym (append-nil cur))
split_lines-line (c ∷ t) cur s h =
    let off : is_line_break c ≡ false = ground arith in
    let rest : IsUnbroken t = ground arith in
    rw off (
      split_lines-line t (cur ++ c ∷ []) s rest
      ∙ ap (λ l. l ∷ split_lines [] s) (append_assoc cur (c ∷ []) t))

split_lines-last : (t cur : Text) → IsUnbroken t → split_lines cur t ≡ (cur ++ t) ∷ []
unfolding split_lines
split_lines-last [] cur h = ap (λ l. l ∷ []) (sym (append-nil cur))
split_lines-last (c ∷ t) cur h =
    let off : is_line_break c ≡ false = ground arith in
    let rest : IsUnbroken t = ground arith in
    rw off
      (split_lines-last t (cur ++ c ∷ []) rest ∙ ap (λ l. l ∷ []) (append_assoc cur (c ∷ []) t))

split_lines-joined :
    (t : Text) (ts : List Text)
    → All IsUnbroken (t ∷ ts)
    → split_lines [] (joined (text "\n") (t ∷ ts)) ≡ t ∷ ts
unfolding joined
split_lines-joined t [] h = split_lines-last t [] h.0
split_lines-joined t (u ∷ ts) h =
    split_lines-line t [] (joined (text "\n") (u ∷ ts)) h.0
    ∙ ap (λ l. t ∷ l) (split_lines-joined u ts h.1)

stripped-same : (ts : List Text) → All IsRead ts → keep (λ l. not (is_nil l)) (map strip ts) ≡ ts
stripped-same [] h = refl
stripped-same (t ∷ ts) h =
    rw (strip-solid t h.0.1) (rw h.0.2 (ap (λ l. t ∷ l) (stripped-same ts h.1)))

nothing : lines_of (joined (text "\n") []) ≡ []
unfolding lines_of joined strip
nothing = refl

read : (s : Text) → All IsRead (lines_of s)
unfolding lines_of
read s = lines-IsRead (split_lines [] s) (split_lines-IsUnbroken s [] refl)

joined-again : (ts : List Text) → All IsRead ts → lines_of (joined (text "\n") ts) ≡ ts
unfolding lines_of
joined-again [] h = nothing
joined-again (t ∷ ts) h =
    ap (λ l. keep (λ k. not (is_nil k)) (map strip l))
      (split_lines-joined t ts (All-map _ _ (λ x k. k.0) (t ∷ ts) h))
    ∙ stripped-same (t ∷ ts) h

-- Reading the lines of a text, joined by line breaks, gives the same lines.
pub lines_of-joined : (s : Text) → lines_of (joined (text "\n") (lines_of s)) ≡ lines_of s
lines_of-joined s = joined-again (lines_of s) (read s)
