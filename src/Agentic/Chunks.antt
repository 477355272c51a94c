-- ===== src/Agentic/Chunks.antt =====
-- `_chunk_segments` of agentic/specialists.py: the segments in groups that each fit one request.
use compliance_wizard_engine.Prelude.{
  ℕ, ◌+◌, ◌≤◌, ◌≡◌, ◌⊎◌, inl, inr, refl, ap, ◌∙◌, ◌&&◌, not, Bool-cases, List, [], ◌∷◌, ◌++◌, All,
  is_empty, length, ltb, if◌then◌else◌, arith,
}
use compliance_wizard_engine.Schemas.{TextSegment}

-- The characters that a segment takes in a prompt.
abbrev pub seg_len : TextSegment → ℕ
seg_len seg = length seg.body + 80

-- The loop, with the current chunk and its length.
unfoldable pub chunks_from : ℕ → List TextSegment → ℕ → List TextSegment → List (List TextSegment)
chunks_from budget cur cur_len [] = if is_empty cur then [] else cur ∷ []
chunks_from budget cur cur_len (seg ∷ segs) =
    let closed = not (is_empty cur) && ltb budget (cur_len + seg_len seg) in
    let rest =
      chunks_from budget (if closed then seg ∷ [] else cur ++ seg ∷ [])
        (if closed then seg_len seg else cur_len + seg_len seg) segs in
    if closed then cur ∷ rest else rest

unfoldable pub chunk_segments : List TextSegment → ℕ → List (List TextSegment)
unfolding chunks_from
chunk_segments segs budget =
    let chunks = chunks_from budget [] 0 segs in if is_empty chunks then [] ∷ [] else chunks

-- All segments of some chunks, in order.
abbrev pub joined_chunks : List (List TextSegment) → List TextSegment
joined_chunks [] = []
joined_chunks (c ∷ chunks) = c ++ joined_chunks chunks

abbrev pub total_len : List TextSegment → ℕ
total_len [] = 0
total_len (seg ∷ segs) = seg_len seg + total_len segs

-- A chunk within the budget, or one segment that is longer by itself.
abbrev pub Fits : ℕ → List TextSegment → Type 0
Fits budget c = (total_len c ≤ budget) ⊎ (length c ≤ 1)

append_assoc : (xs ys zs : List TextSegment) → (xs ++ ys) ++ zs ≡ xs ++ (ys ++ zs)
append_assoc [] ys zs = refl
append_assoc (x ∷ xs) ys zs = ap (λ l. x ∷ l) (append_assoc xs ys zs)

append_nil : (xs : List TextSegment) → xs ++ [] ≡ xs
append_nil [] = refl
append_nil (x ∷ xs) = ap (λ l. x ∷ l) (append_nil xs)

total_len-append :
    (xs : List TextSegment) (seg : TextSegment)
    → total_len (xs ++ seg ∷ []) ≡ total_len xs + seg_len seg
total_len-append [] seg = omega arith
total_len-append (x ∷ xs) seg = omega (arith, total_len-append xs seg)

chunks_from-joined :
    (budget : ℕ) (cur : List TextSegment) (n : ℕ) (segs : List TextSegment)
    → joined_chunks (chunks_from budget cur n segs) ≡ cur ++ segs
unfolding chunks_from
chunks_from-joined budget [] n [] = refl
chunks_from-joined budget (c ∷ cur) n [] = refl
chunks_from-joined budget cur n (seg ∷ segs) =
    let long = ltb budget (n + seg_len seg) in
    elim (Bool-cases (not (is_empty cur) && long)) [
      | inl e ↦ rw e (ap (λ l. cur ++ l) (chunks_from-joined budget (seg ∷ []) (seg_len seg) segs))
      | inr e ↦ rw e (
          chunks_from-joined budget (cur ++ seg ∷ []) (n + seg_len seg) segs
          ∙ append_assoc cur (seg ∷ []) segs)
    ]

chunks_from-Fits :
    (budget : ℕ) (cur : List TextSegment) (n : ℕ) (segs : List TextSegment)
    → total_len cur ≡ n
    → Fits budget cur
    → All (Fits budget) (chunks_from budget cur n segs)
unfolding chunks_from
chunks_from-Fits budget [] n [] h f = tt
chunks_from-Fits budget (c ∷ cur) n [] h f = (f, tt)
chunks_from-Fits budget [] n (seg ∷ segs) h f =
    chunks_from-Fits budget (seg ∷ []) (n + seg_len seg) segs (omega (arith, h)) (inr (omega arith))
chunks_from-Fits budget (c ∷ cur) n (seg ∷ segs) h f =
    let whole = total_len-append (c ∷ cur) seg in
    elim (Bool-cases (ltb budget (n + seg_len seg))) [
      | inl e ↦ rw e (
        f,
        chunks_from-Fits budget (seg ∷ []) (seg_len seg) segs (omega arith) (inr (omega arith)),
      )
      | inr e ↦
          let small : n + seg_len seg ≤ budget = ground arith in
          rw e (
            chunks_from-Fits budget (c ∷ (cur ++ seg ∷ [])) (n + seg_len seg) segs
              (omega (arith, whole, h)) (inl (omega (arith, whole, h, small))))
    ]

-- Chunking loses no segment and keeps their order, and each chunk is within the budget unless it is
-- a single segment that is too long by itself.
pub chunk_segments-joined :
    (segs : List TextSegment) (budget : ℕ)
    → (joined_chunks (chunk_segments segs budget) ≡ segs)
      × All (Fits budget) (chunk_segments segs budget)
unfolding chunk_segments
chunk_segments-joined segs budget =
    let chunks = chunks_from budget [] 0 segs in
    let all = chunks_from-joined budget [] 0 segs in
    let fits = chunks_from-Fits budget [] 0 segs refl (inr (omega arith)) in
    elim (Bool-cases (is_empty chunks)) [
      | inl e ↦ rw e (ground (arith, all), (inr (omega arith), tt))
      | inr e ↦ rw e (all, fits)
    ]
