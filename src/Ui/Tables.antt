-- ===== src/Ui/Tables.antt =====
-- What every endpoint needs: a table as the list of its rows with their ids, and the response of a
-- request, which is an error status where the source raises.
use compliance_wizard_engine.Prelude.{
  ℕ, ◌≡◌, refl, Bool, false, not, Option, none, some, List, [], ◌∷◌, map, any, keep, ◌==◌, nat_eq,
  if◌then◌else◌, arith,
}

-- The rows of a table in the order of insertion, each under its primary key.
abbrev pub Keyed {ℓ} : Type ℓ → Type ℓ
Keyed R = List (ℕ × R)

-- HTTPException's status code, or 500 for any other exception
pub data Response (A : Type 0) : Type 0 where
  ok : A → Response A
  error : (status : ℕ) → Response A

abbrev pub not_found : ℕ
not_found = 404

abbrev pub bad_request : ℕ
bad_request = 400

abbrev pub server_error : ℕ
server_error = 500

module _ {R : Type 0} where
  abbrev pub rows : Keyed R → List R
  rows table = map (λ row. row.1) table

  -- `s.get(Table, id)`
  unfoldable pub get : ℕ → Keyed R → Option R
  get id [] = none
  get id ((k, row) ∷ table) = if k == id then some row else get id table

  -- UPDATE of the row with an id
  unfoldable pub update : ℕ → (R → R) → Keyed R → Keyed R
  update id change [] = []
  update id change ((k, row) ∷ table) =
      if k == id
      then (k, change row) ∷ update id change table
      else (k, row) ∷ update id change table

  -- `s.delete(row)`
  unfoldable pub delete : ℕ → Keyed R → Keyed R
  delete id table = keep (λ row. not (row.0 == id)) table

  pub get-update :
      (id j : ℕ) (change : R → R) (table : Keyed R)
      → get j (update id change table) ≡ (
          if id == j
          then elim (get j table) [ none ↦ none | some row ↦ some (change row) ]
          else get j table)
  unfolding get update
  get-update id j change [] = ground arith
  get-update id j change ((k, row) ∷ table) = ground (arith, get-update id j change table)

  -- A change of one row seen through a list of the rows that pass a test.
  abbrev pub having : (R → Bool) → Keyed R → Keyed R
  having p table = keep (λ row. p row.1) table

  abbrev pub has_key : ℕ → Keyed R → Bool
  has_key id table = any (λ row. row.0 == id) table

  -- No two rows share a primary key.
  abbrev pub HasKeys : Keyed R → Type 0
  HasKeys [] = Unit
  HasKeys ((k, row) ∷ table) = (has_key k table ≡ false) × HasKeys table

  pub delete-absent :
      (id : ℕ) (table : Keyed R) → has_key id table ≡ false → delete id table ≡ table
  unfolding delete
  delete-absent id [] h = refl
  delete-absent id ((k, row) ∷ table) h = ground (arith, delete-absent id table)
