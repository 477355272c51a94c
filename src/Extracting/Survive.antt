-- ===== src/Extracting/Survive.antt =====
-- What the budget of a prompt keeps.
use mathlib.Core.List.Perm
use mathlib.Core.List.{Perm}
use compliance_wizard_engine.Prelude.{
  ℕ, ◌+◌, ◌-◌, ◌≤◌, ◌≡◌, refl, Bool, List, [], ◌∷◌, Text, length, leb, nat_eq, insert, sort,
  IsSorted, sort-IsSorted, length-sort, arith,
}
use compliance_wizard_engine.Schemas.{TextSegment}
use compliance_wizard_engine.Extracting.Budget.{
  priority, ranks_before, block, choose, in_document_order, prompt_segments,
}

-- A segment of rank r or better.
abbrev pub in_rank : ℕ → TextSegment → Bool
in_rank r seg = leb (priority seg) r

module _ (len : TextSegment → ℕ) where
  abbrev pub total : List TextSegment → ℕ
  total [] = 0
  total (seg ∷ segs) = len seg + total segs

  choose-within : (budget : ℕ) (segs : List TextSegment) → total (choose len budget segs).0 ≤ budget
  unfolding choose
  choose-within budget [] = omega arith
  choose-within budget (seg ∷ segs) =
      ground (arith, choose-within (budget - len seg) segs, choose-within budget segs)

  choose-count :
      (budget : ℕ) (segs : List TextSegment)
      → length (choose len budget segs).0 + (choose len budget segs).1 ≡ length segs
  unfolding choose
  choose-count budget [] = omega arith
  choose-count budget (seg ∷ segs) =
      ground (arith, choose-count (budget - len seg) segs, choose-count budget segs)

  total-insert :
      (before : TextSegment → TextSegment → Bool) (x : TextSegment) (xs : List TextSegment)
      → total (insert before x xs) ≡ len x + total xs
  unfolding insert
  total-insert before x [] = refl
  total-insert before x (y ∷ ys) = ground (arith, total-insert before x ys)

  total-sort :
      (before : TextSegment → TextSegment → Bool) (xs : List TextSegment)
      → total (sort before xs) ≡ total xs
  unfolding sort
  total-sort before [] = refl
  total-sort before (x ∷ xs) =
      omega (arith, total-insert before x (sort before xs), total-sort before xs)

-- The blocks that a prompt shows fit the budget, and stand in document order; those shown and those
-- that the prompt says are left out are together as many as the segments.
pub prompt_segments_fit :
    (shown : ℕ → Text) (max_chars : ℕ) (segs : List TextSegment)
    → let (chosen, omitted) = prompt_segments shown max_chars segs in
      (total (λ seg. length (block shown seg)) chosen ≤ max_chars)
      × (length chosen + omitted ≡ length segs)
      × IsSorted in_document_order chosen
unfolding prompt_segments
prompt_segments_fit shown max_chars segs =
    let len = λ (seg : TextSegment). length (block shown seg) in
    let ranked = sort ranks_before segs in
    let picked = (choose len max_chars ranked).0 in
    (
      omega (arith, total-sort len in_document_order picked, choose-within len max_chars ranked),
      omega (
        arith,
        length-sort in_document_order picked,
        length-sort ranks_before segs,
        choose-count len max_chars ranked,
      ),
      sort-IsSorted in_document_order (λ a b h. ground arith) (λ a b c h k. ground arith) picked,
    )
