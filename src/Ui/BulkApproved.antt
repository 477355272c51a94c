-- ===== src/Ui/BulkApproved.antt =====
-- What a bulk approval does to the table and to the queue.
use compliance_wizard_engine.Prelude.{
  ℕ, ◌+◌, ◌≡◌, inl, inr, refl, Bool, ◌&&◌, not, some, [], ◌∷◌, map, Text, length, nat_eq, text_eq,
  Floats, arith, false, or_else, Bool-cases, if◌then◌else◌,
}
use compliance_wizard_engine.Vocabulary.{pending, auto_approved, human_approved, rejected}
use compliance_wizard_engine.Store.{RegulationField}
use compliance_wizard_engine.Ui.Tables.{Keyed, having}
use compliance_wizard_engine.Ui.Queue.{is_pending}
use compliance_wizard_engine.Ui.Decisions.{reaches, bulk_approve}

module _ {F : Type 0} ⦃fl : Floats F⦄ where
  abbrev pub pending_count : Keyed (RegulationField F) → ℕ
  pending_count fields = length (having (λ f. is_pending f.review_status) fields)

  -- A pending field whose confidence, 0 where it has none, is the threshold or more.
  abbrev pub qualifies : F → RegulationField F → Bool
  qualifies limit f = elim f.review_status [
    | pending ↦ fl.fle limit (or_else f.confidence (fl.milli 0))
    | auto_approved ↦ false
    | human_approved ↦ false
    | rejected ↦ false
  ]

  reaches-qualifies : (limit : F) (f : RegulationField F) → reaches limit f ≡ qualifies limit f
  reaches-qualifies limit f = ground arith

  abbrev pub is_short : F → RegulationField F → Bool
  is_short limit f = is_pending f.review_status && not (qualifies limit f)

  abbrev pub approved_by : F → Text → RegulationField F → RegulationField F
  approved_by limit reviewer f =
      if qualifies limit f
      then record f { review_status = human_approved; reviewer_id = some reviewer }
      else f

  -- A bulk approval approves the pending fields whose confidence is the threshold or more and no other:
  -- what stays pending is what was pending below it, the number that it answers is the number of
  -- fields that left the queue, and a second approval finds nothing to do.
  pub bulk_approve_lem :
      (limit : F) (reviewer : Text) (fields : Keyed (RegulationField F))
      → let (after, n) = bulk_approve limit reviewer fields in
        (having (λ f. is_pending f.review_status) after ≡ having (is_short limit) fields)
        × (n + pending_count after ≡ pending_count fields)
        × (after ≡ map (λ row. (row.0, approved_by limit reviewer row.1)) fields)
        × ((bulk_approve limit reviewer after).1 ≡ 0)
  unfolding bulk_approve
  bulk_approve_lem limit reviewer [] = (refl, omega arith, refl, refl)
  bulk_approve_lem limit reviewer ((id, f) ∷ fields) =
      let (p, n, d, again) = bulk_approve_lem limit reviewer fields in
      let same = reaches-qualifies limit f in
      elim (Bool-cases (qualifies limit f)) [
        | inl e ↦
            rw (same, e)
              (ground (arith, p), ground (arith, n), ground (arith, d), ground (arith, again))
        | inr e ↦
            rw (same, e)
              (ground (arith, p), ground (arith, n), ground (arith, d), ground (arith, again))
      ]
