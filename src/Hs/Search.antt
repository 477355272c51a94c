-- ===== src/Hs/Search.antt =====
-- `find_regulations_by_hs`: no regulation with a matching row is missing, each stands once, and
-- its best score is kept.
use compliance_wizard_engine.Prelude.{
  ℕ, ◌≡◌, refl, Bool, true, false, ◌&&◌, ◌||◌, inl, inr, some, Option-cases, List, [], ◌∷◌, Text,
  digits, any, All, Any, is_some, ◌==◌, nat_eq, Floats, IsOrdered, arith,
}
use compliance_wizard_engine.Store.{HsMap}
use compliance_wizard_engine.Hs.{
  Candidate, keep_best, candidate_of, row_score, next_best, collect_best, find_regulations_by_hs,
}

module _ {F : Type 0} ⦃fl : Floats F⦄ where
  abbrev pub has_regulation : ℕ → List (Candidate F) → Bool
  has_regulation r best = any (λ c. c.regulation_id == r) best

  -- Each regulation stands at most once among the candidates.
  abbrev pub IsDistinct : List (Candidate F) → Type 0
  IsDistinct [] = Unit
  IsDistinct (c ∷ cs) = (has_regulation c.regulation_id cs ≡ false) × IsDistinct cs

  has_regulation-keep_best :
      (r : ℕ) (cand : Candidate F) (score : F) (best : List (Candidate F))
      → has_regulation r (keep_best cand score best)
        ≡ (has_regulation r best || cand.regulation_id == r)
  unfolding keep_best
  has_regulation-keep_best r cand score [] = ground arith
  has_regulation-keep_best r cand score (cur ∷ best) =
      ground (arith, has_regulation-keep_best r cand score best)

  has_regulation-collect_best :
      (r : ℕ) (u : Text) (rows : List (HsMap F)) (best : List (Candidate F))
      → has_regulation r (collect_best u rows best) ≡ (
          has_regulation r best
          || any (λ row. is_some (row_score u row) && row.regulation_id == r) rows)
  unfolding collect_best
  has_regulation-collect_best r u [] best = ground arith
  has_regulation-collect_best r u (row ∷ rows) best = elim (Option-cases (row_score u row)) [
    | inl e ↦ rw (e, next_best) (has_regulation-collect_best r u rows best)
    | inr e ↦
        rw (e.1, next_best)
          (ground (
            arith,
            has_regulation-collect_best r u rows (keep_best (candidate_of row e.0) e.0 best),
            has_regulation-keep_best r (candidate_of row e.0) e.0 best,
          ))
  ]

  keep_best-IsDistinct :
      (cand : Candidate F) (score : F) (best : List (Candidate F))
      → IsDistinct best
      → IsDistinct (keep_best cand score best)
  unfolding keep_best
  keep_best-IsDistinct cand score [] h = (refl, tt)
  keep_best-IsDistinct cand score (cur ∷ best) h = ground (
    arith,
    keep_best-IsDistinct cand score best,
    has_regulation-keep_best cur.regulation_id cand score best,
  )

  collect_best-IsDistinct :
      (u : Text) (rows : List (HsMap F)) (best : List (Candidate F))
      → IsDistinct best
      → IsDistinct (collect_best u rows best)
  unfolding collect_best
  collect_best-IsDistinct u [] best h = h
  collect_best-IsDistinct u (row ∷ rows) best h = elim (Option-cases (row_score u row)) [
    | inl e ↦ rw (e, next_best) (collect_best-IsDistinct u rows best h)
    | inr e ↦
        rw (e.1, next_best)
          (collect_best-IsDistinct u rows (keep_best (candidate_of row e.0) e.0 best)
            (keep_best-IsDistinct (candidate_of row e.0) e.0 best h))
  ]

  -- For every code and table: a regulation is among the candidates exactly when one of its rows
  -- scores against the code, and no regulation is there twice.
  pub find_regulations_by_hs_complete :
      (hs_code : Text) (rows : List (HsMap F))
      → ((r : ℕ)
          → has_regulation r (find_regulations_by_hs hs_code rows)
            ≡ any (λ row. is_some (row_score (digits hs_code) row) && row.regulation_id == r) rows)
        × IsDistinct (find_regulations_by_hs hs_code rows)
  unfolding find_regulations_by_hs
  find_regulations_by_hs_complete hs_code rows = (
    λ r. has_regulation-collect_best r (digits hs_code) rows [],
    collect_best-IsDistinct (digits hs_code) rows [] tt,
  )

  -- Some candidate of regulation r has at least the rounded score.
  abbrev pub Reaches : ℕ → F → List (Candidate F) → Type 0
  Reaches r score =
      Any (λ c. (c.regulation_id ≡ r) × (fl.fle (fl.round3 score) c.confidence ≡ true))

  abbrev IsRounded : List (Candidate F) → Type 0
  IsRounded = All (λ c. fl.round3 c.confidence ≡ c.confidence)

  module _ (o : IsOrdered fl) where
    keep_best-IsRounded :
        (row : HsMap F) (score : F) (best : List (Candidate F))
        → IsRounded best
        → IsRounded (keep_best (candidate_of row score) score best)
    unfolding keep_best
    keep_best-IsRounded row score [] h = (o.round_idem score, tt)
    keep_best-IsRounded row score (cur ∷ best) h =
        ground (arith, keep_best-IsRounded row score best, o.round_idem score)

    next_best-IsRounded :
        (u : Text) (row : HsMap F) (best : List (Candidate F))
        → IsRounded best
        → IsRounded (next_best u row best)
    next_best-IsRounded u row best h = elim (Option-cases (row_score u row)) [
      | inl e ↦ rw (e, next_best) h
      | inr e ↦ rw (e.1, next_best) (keep_best-IsRounded row e.0 best h)
    ]

    keep_best-Reaches_old :
        (r : ℕ) (s : F) (row : HsMap F) (score : F) (best : List (Candidate F))
        → IsRounded best
        → Reaches r s best
        → Reaches r s (keep_best (candidate_of row score) score best)
    unfolding keep_best
    keep_best-Reaches_old r s row score [] rounded h = absurd h
    keep_best-Reaches_old r s row score (cur ∷ best) rounded h = ground (
      arith,
      keep_best-Reaches_old r s row score best,
      o.flt_fle cur.confidence score,
      o.round_mono cur.confidence score,
      o.fle_trans (fl.round3 s) cur.confidence (fl.round3 score),
    )

    keep_best-Reaches_new :
        (row : HsMap F) (score : F) (best : List (Candidate F))
        → IsRounded best
        → Reaches row.regulation_id score (keep_best (candidate_of row score) score best)
    unfolding keep_best
    keep_best-Reaches_new row score [] rounded = inl (refl, o.fle_refl (fl.round3 score))
    keep_best-Reaches_new row score (cur ∷ best) rounded = ground (
      arith,
      keep_best-Reaches_new row score best,
      o.fle_refl (fl.round3 score),
      o.flt_false cur.confidence score,
      o.round_mono score cur.confidence,
    )

    collect_best-Reaches_old :
        (r : ℕ) (s : F) (u : Text) (rows : List (HsMap F)) (best : List (Candidate F))
        → IsRounded best
        → Reaches r s best
        → Reaches r s (collect_best u rows best)
    unfolding collect_best
    collect_best-Reaches_old r s u [] best rounded h = h
    collect_best-Reaches_old r s u (row ∷ rows) best rounded h =
        elim (Option-cases (row_score u row)) [
          | inl e ↦ rw (e, next_best) (collect_best-Reaches_old r s u rows best rounded h)
          | inr e ↦
              rw (e.1, next_best)
                (collect_best-Reaches_old r s u rows (keep_best (candidate_of row e.0) e.0 best)
                  (keep_best-IsRounded row e.0 best rounded)
                  (keep_best-Reaches_old r s row e.0 best rounded h))
        ]

    collect_best-Reaches :
        (u : Text) (rows : List (HsMap F)) (best : List (Candidate F))
        → IsRounded best
        → All
            (λ row.
              (s : F)
              → row_score u row ≡ some s
              → Reaches row.regulation_id s (collect_best u rows best))
            rows
    unfolding collect_best
    collect_best-Reaches u [] best rounded = tt
    collect_best-Reaches u (row ∷ rows) best rounded = (
      λ s scored.
          collect_best-Reaches_old row.regulation_id s u rows (next_best u row best)
            (next_best-IsRounded u row best rounded)
            (rw (scored, next_best) (keep_best-Reaches_new row s best rounded)),
      collect_best-Reaches u rows (next_best u row best) (next_best-IsRounded u row best rounded),
    )

    -- On floats without NaN: for every row that scores against the code, the regulation's candidate
    -- has at least that score, rounded to three decimals.
    pub find_regulations_by_hs_best :
        (hs_code : Text) (rows : List (HsMap F))
        → All
            (λ row.
              (s : F)
              → row_score (digits hs_code) row ≡ some s
              → Reaches row.regulation_id s (find_regulations_by_hs hs_code rows))
            rows
    unfolding find_regulations_by_hs
    find_regulations_by_hs_best hs_code rows = collect_best-Reaches (digits hs_code) rows [] tt
