-- ===== src/Hs/Mapping.antt =====
-- What writing the HS rows of a regulation does to the rows that are there.
use compliance_wizard_engine.Prelude.{
  ℕ, ◌≡◌, ◌⊎◌, refl, true, false, ◌&&◌, ◌||◌, inl, inr, Bool-cases, Option, none, some, List, [],
  ◌∷◌, Text, digits, take, length, any, All, contains, ◌==◌, nat_eq, text_eq, text_beq_iff, ltb,
  if◌then◌else◌, Floats, arith,
}
use compliance_wizard_engine.Vocabulary.{
  MatchType, exact, fuzzy, ReviewStatus, pending, auto_approved,
}
use compliance_wizard_engine.Store.{HsMap}
use compliance_wizard_engine.Hs.{same_key, upsert, map_code, map_regulation_hs_codes}

-- What `map_code` writes: only a code of the nomenclature is exact and approved.
abbrev MayWrite : List Text → Text → MatchType → ReviewStatus → Type 0
MayWrite nom code mt st =
    ((st ≡ auto_approved) × (mt ≡ exact) × (contains code nom ≡ true))
    ⊎ ((st ≡ pending) × (mt ≡ fuzzy))

module _ {F : Type 0} ⦃fl : Floats F⦄ where
  -- The review decision on the row of a code and a regulation.
  unfoldable pub decision_at : Text → ℕ → List (HsMap F) → Option (ReviewStatus × Option Text)
  decision_at code reg [] = none
  decision_at code reg (row ∷ rows) =
      if same_key code reg row
      then some (row.review_status, row.reviewer_id)
      else decision_at code reg rows

  -- No two rows share a code and a regulation (the constraint uq_hs_regulation).
  abbrev pub IsUnique : List (HsMap F) → Type 0
  IsUnique [] = Unit
  IsUnique (row ∷ rows) =
      (any (same_key row.hs_code row.regulation_id) rows ≡ false) × IsUnique rows

  decision_at-upsert :
      (c : Text) (r : ℕ) (rows : List (HsMap F)) (code : Text) (reg : ℕ) (conf : F) (mt : MatchType)
      (st : ReviewStatus) (d : ReviewStatus × Option Text)
      → decision_at c r rows ≡ some d
      → decision_at c r (upsert rows code reg conf mt st) ≡ some d
  unfolding decision_at upsert
  decision_at-upsert c r [] code reg conf mt st d h = cc
  decision_at-upsert c r (row ∷ rows) code reg conf mt st d h = ground (
    arith,
    decision_at-upsert c r rows code reg conf mt st d,
    text_beq_iff row.hs_code c,
    text_beq_iff row.hs_code code,
  )

  map_code_ind :
      (P : List (HsMap F) → Type 0) (nom : List Text) (reg : ℕ) (raw : Text) (rows : List (HsMap F))
      → ((code : Text) (conf : F) (mt : MatchType) (st : ReviewStatus)
          → MayWrite nom code mt st
          → P (upsert rows code reg conf mt st))
      → P (map_code nom reg raw rows)
  unfolding map_code
  map_code_ind P nom reg raw rows step =
      let code = digits raw in
      elim (Bool-cases (ltb (length code) 6)) [
        | inl e ↦ rw e (step _ _ _ _ (inr (refl, refl)))
        | inr e ↦ rw e (elim (Bool-cases (contains code nom)) [
          | inl k ↦ rw k (step _ _ _ _ (inl (refl, refl, k)))
          | inr k ↦ rw k (elim (Bool-cases (contains (take 6 code) nom)) [
            | inl l ↦ rw l (step _ _ _ _ (inr (refl, refl)))
            | inr l ↦ rw l (step _ _ _ _ (inr (refl, refl)))
          ])
        ])
      ]

  decision_at-map_code :
      (nom : List Text) (reg : ℕ) (raw : Text) (rows : List (HsMap F)) (c : Text) (r : ℕ)
      (d : ReviewStatus × Option Text)
      → decision_at c r rows ≡ some d
      → decision_at c r (map_code nom reg raw rows) ≡ some d
  unfolding map_code
  decision_at-map_code nom reg raw rows c r d h =
      map_code_ind (λ l. decision_at c r l ≡ some d) nom reg raw rows
        λ code conf mt st ok. decision_at-upsert c r rows code reg conf mt st d h

  -- Mapping the codes of a regulation, in particular again on a re-ingest, changes no review
  -- decision and no reviewer of a row that was there, whatever its regulation.
  pub map_regulation_hs_codes_keeps_decisions :
      (nom : List Text) (reg : ℕ) (raws : List Text) (rows : List (HsMap F)) (c : Text) (r : ℕ)
      (d : ReviewStatus × Option Text)
      → decision_at c r rows ≡ some d
      → decision_at c r (map_regulation_hs_codes nom reg raws rows) ≡ some d
  unfolding map_regulation_hs_codes
  map_regulation_hs_codes_keeps_decisions nom reg [] rows c r d h = h
  map_regulation_hs_codes_keeps_decisions nom reg (raw ∷ raws) rows c r d h =
      map_regulation_hs_codes_keeps_decisions nom reg raws (map_code nom reg raw rows) c r d
        (decision_at-map_code nom reg raw rows c r d h)

  any-upsert :
      (c : Text) (r : ℕ) (rows : List (HsMap F)) (code : Text) (reg : ℕ) (conf : F) (mt : MatchType)
      (st : ReviewStatus)
      → any (same_key c r) (upsert rows code reg conf mt st)
        ≡ (any (same_key c r) rows || (code == c && reg == r))
  unfolding upsert
  any-upsert c r [] code reg conf mt st = ground arith
  any-upsert c r (row ∷ rows) code reg conf mt st = ground (
    arith,
    any-upsert c r rows code reg conf mt st,
    text_beq_iff row.hs_code c,
    text_beq_iff row.hs_code code,
    text_beq_iff code c,
  )

  upsert-IsUnique :
      (rows : List (HsMap F)) (code : Text) (reg : ℕ) (conf : F) (mt : MatchType)
      (st : ReviewStatus)
      → IsUnique rows
      → IsUnique (upsert rows code reg conf mt st)
  unfolding upsert
  upsert-IsUnique [] code reg conf mt st h = (refl, tt)
  upsert-IsUnique (row ∷ rows) code reg conf mt st h = elim (Bool-cases (same_key code reg row)) [
    | inl e ↦ rw e h
    | inr e ↦ rw e (
      ground (
        arith,
        any-upsert row.hs_code row.regulation_id rows code reg conf mt st,
        text_beq_iff row.hs_code code,
        text_beq_iff code row.hs_code,
      ),
      upsert-IsUnique rows code reg conf mt st h.1,
    )
  ]

  -- If each regulation has at most one row for a code, it is so after mapping more codes: the loop
  -- never writes a second row for a key.
  pub map_regulation_hs_codes-IsUnique :
      (nom : List Text) (reg : ℕ) (raws : List Text) (rows : List (HsMap F))
      → IsUnique rows
      → IsUnique (map_regulation_hs_codes nom reg raws rows)
  unfolding map_regulation_hs_codes
  map_regulation_hs_codes-IsUnique nom reg [] rows h = h
  map_regulation_hs_codes-IsUnique nom reg (raw ∷ raws) rows h =
      map_regulation_hs_codes-IsUnique nom reg raws (map_code nom reg raw rows) (
        map_code_ind IsUnique nom reg raw rows
          λ code conf mt st ok. upsert-IsUnique rows code reg conf mt st h)

  -- A row that no reviewer has to see, or has seen, is a code of the nomenclature.
  abbrev pub IsBacked : List Text → HsMap F → Type 0
  IsBacked nom row = row.review_status ≡ auto_approved → contains row.hs_code nom ≡ true

  upsert-IsBacked :
      (nom : List Text) (rows : List (HsMap F)) (code : Text) (reg : ℕ) (conf : F) (mt : MatchType)
      (st : ReviewStatus)
      → MayWrite nom code mt st
      → All (IsBacked nom) rows
      → All (IsBacked nom) (upsert rows code reg conf mt st)
  unfolding upsert
  upsert-IsBacked nom [] code reg conf mt st ok h =
      (elim ok [ inl k ↦ (λ e. k.2) | inr k ↦ (λ e. cc k.0) ], tt)
  upsert-IsBacked nom (row ∷ rows) code reg conf mt st ok h =
      elim (Bool-cases (same_key code reg row)) [
        | inl e ↦ rw e h
        | inr e ↦ rw e (h.0, upsert-IsBacked nom rows code reg conf mt st ok h.1)
      ]

  -- Mapping the codes of a regulation approves nothing by itself but codes of the nomenclature:
  -- where this holds of the rows before, it holds of all rows after.
  pub map_regulation_hs_codes-IsBacked :
      (nom : List Text) (reg : ℕ) (raws : List Text) (rows : List (HsMap F))
      → All (IsBacked nom) rows
      → All (IsBacked nom) (map_regulation_hs_codes nom reg raws rows)
  unfolding map_regulation_hs_codes
  map_regulation_hs_codes-IsBacked nom reg [] rows h = h
  map_regulation_hs_codes-IsBacked nom reg (raw ∷ raws) rows h =
      map_regulation_hs_codes-IsBacked nom reg raws (map_code nom reg raw rows) (
        map_code_ind (All (IsBacked nom)) nom reg raw rows
          λ code conf mt st ok. upsert-IsBacked nom rows code reg conf mt st ok h)
