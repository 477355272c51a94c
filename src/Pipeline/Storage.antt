-- ===== src/Pipeline/Storage.antt =====
-- `_persist` of pipeline.py: a re-run replaces the rows of its regulation, and touches no others.
use compliance_wizard_engine.Prelude.{
  ℕ, suc, ◌<◌, ◌≡◌, refl, ap, ◌∙◌, Bool, List, [], ◌∷◌, ◌++◌, map, keep, All, arith, Floats, nat_eq,
  nat_beq_iff, text_eq,
}
use compliance_wizard_engine.Store.{Job}
use compliance_wizard_engine.Schemas.{
  ApplicabilityCondition, MappedField, ReviewFlag, ValidationOutput, FetchEnrichmentOutput,
}
use compliance_wizard_engine.Pipeline.Regulations.{put_regulation_again}
use compliance_wizard_engine.Pipeline.Persist.{
  Db, field_row, condition_row, condition_rows, field_of_other, condition_of_other, put_regulation,
  persist,
}

keep-append :
    {A : Type 0} (p : A → Bool) (xs ys : List A) → keep p (xs ++ ys) ≡ keep p xs ++ keep p ys
keep-append p [] ys = refl
keep-append p (x ∷ xs) ys = ground (arith, keep-append p xs ys)

keep_idem : {A : Type 0} (p : A → Bool) (xs : List A) → keep p (keep p xs) ≡ keep p xs
keep_idem p [] = refl
keep_idem p (x ∷ xs) = ground (arith, keep_idem p xs)

append_nil : {A : Type 0} (xs : List A) → xs ++ [] ≡ xs
append_nil [] = refl
append_nil (x ∷ xs) = ap (λ ys. x ∷ ys) (append_nil xs)

-- Rows of which none is kept, behind rows that are.
keep-behind :
    {A : Type 0} (p : A → Bool) (xs ys : List A)
    → keep p ys ≡ []
    → keep p (keep p xs ++ ys) ≡ keep p xs
keep-behind p xs ys h =
    keep-append p (keep p xs) ys
    ∙ (ap (λ zs. keep p (keep p xs) ++ zs) h ∙ (append_nil (keep p (keep p xs)) ∙ keep_idem p xs))

module _ {F : Type 0} ⦃fl : Floats F⦄ where
  field_rows-own :
      (threshold : F) (reg : ℕ) (flags : List ReviewFlag) (fs : List (MappedField F))
      → keep (field_of_other reg) (map (field_row threshold reg flags) fs) ≡ []
  unfolding field_row
  field_rows-own threshold reg flags [] = refl
  field_rows-own threshold reg flags (f ∷ fs) =
      ground (arith, field_rows-own threshold reg flags fs, nat_beq_iff reg reg)

  condition_rows-own :
      (threshold : F) (reg k : ℕ) (flags : List ReviewFlag) (cs : List (ApplicabilityCondition F))
      → keep (condition_of_other reg) (condition_rows threshold reg flags k cs) ≡ []
  unfolding condition_rows condition_row
  condition_rows-own threshold reg k flags [] = refl
  condition_rows-own threshold reg k flags (c ∷ cs) =
      ground (arith, condition_rows-own threshold reg (suc k) flags cs, nat_beq_iff reg reg)

  -- Persisting a record leaves the fields and the conditions of every other regulation as they are,
  -- and in their order.
  pub persist_keeps_others :
      (threshold : F) (job : Job) (v : ValidationOutput F) (fetch : FetchEnrichmentOutput F)
      (db : Db F)
      → let (db', reg) = persist threshold job v fetch db in
        (keep (field_of_other reg) db'.fields ≡ keep (field_of_other reg) db.fields)
        × (keep (condition_of_other reg) db'.conditions
            ≡ keep (condition_of_other reg) db.conditions)
  unfolding persist
  persist_keeps_others threshold job v fetch db =
      let reg = (put_regulation job v fetch db.graph).1 in
      (
        keep-behind (field_of_other reg) db.fields _
            (field_rows-own threshold reg v.flags v.fields),
        keep-behind (condition_of_other reg) db.conditions _
            (condition_rows-own threshold reg 0 v.flags v.applicability_conditions),
      )

  -- A second run whose regulation has the id of the first.
  persist_again :
      (threshold : F) (job : Job) (v : ValidationOutput F) (fetch : FetchEnrichmentOutput F)
      (db : Db F)
      → (let (g, reg) = put_regulation job v fetch db.graph in
          put_regulation job v fetch g ≡ (g, reg))
      → (let (db', reg) = persist threshold job v fetch db in
          persist threshold job v fetch db' ≡ (db', reg))
  unfolding persist
  persist_again threshold job v fetch db same =
      let reg = (put_regulation job v fetch db.graph).1 in
      let fields =
        keep-behind (field_of_other reg) db.fields _
          (field_rows-own threshold reg v.flags v.fields) in
      let conditions =
        keep-behind (condition_of_other reg) db.conditions _
          (condition_rows-own threshold reg 0 v.flags v.applicability_conditions) in
      rw (same, fields, conditions)

module _ {F : Type 0} ⦃fl : Floats F⦄ where
  -- Persisting a record again changes nothing: the regulation's columns stay as the first run set
  -- them, and its fields and conditions are replaced by the same rows, not doubled. The new ids are
  -- only asked to be above those in use.
  pub persist_idempotent :
      (threshold : F) (job : Job) (v : ValidationOutput F) (fetch : FetchEnrichmentOutput F)
      (db : Db F)
      → All (λ r. r.id < db.graph.fresh) db.graph.regulations
      → (let (db', reg) = persist threshold job v fetch db in
          persist threshold job v fetch db' ≡ (db', reg))
  persist_idempotent threshold job v fetch db below =
      persist_again threshold job v fetch db (put_regulation_again job v fetch db.graph below)
