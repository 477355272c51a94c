-- ===== src/Fetching/Skipped.antt =====
-- When the Fetch Agent skips, when it enriches, and when it raises all the same.
use compliance_wizard_engine.Prelude.{
  ℕ, ◌≡◌, ◌↔◌, true, false, arith, Option, none, some, Text, text, upper, ◌==◌, text_eq, Floats,
  Bool-cases, Option-cases, inl, inr,
}
use compliance_wizard_engine.Extracting.Json.{Json}
use compliance_wizard_engine.Fetching.Refusals.{is_accepted, output_read}
use compliance_wizard_engine.Fetching.{HttpResponse, Meta, query_api, output_of, run}

module _ {F : Type 0} ⦃fl : Floats F⦄ where
  -- The service has an answer for the regulation, which is not accepted.
  abbrev pub IsRefused :
      (Json F → Option ℕ) → (Text → Option (HttpResponse F)) → Text → Text → Type 0
  IsRefused as_date http_get base_url source_id =
      (meta : Meta F) × (query_api http_get base_url source_id ≡ some (some meta))
      × (is_accepted as_date meta ≡ false)

  refused_output :
      (as_date : Json F → Option ℕ) (meta : Meta F)
      → (output_of as_date meta ≡ none) ↔ (is_accepted as_date meta ≡ false)
  refused_output as_date meta =
      (λ h. ground (arith, output_read as_date meta), λ h. ground (arith, output_read as_date meta))

  -- Whatever the request does, the agent raises in one case only, and it does raise then: the
  -- regulation is of the EU, and in the service's answer the history is no list of texts, a date that
  -- is not null is no date, the reference is neither null nor a text, or a relationship has no text as
  -- its target, none of the six types, or a confidence outside of [0, 1].
  pub run_raises_iff :
      (as_date : Json F → Option ℕ) (http_get : Text → Option (HttpResponse F))
      (base_url source_id jurisdiction : Text)
      → (run as_date http_get base_url source_id jurisdiction ≡ none) ↔ (
          ((upper jurisdiction == text "EU") ≡ true)
          × IsRefused as_date http_get base_url source_id)
  unfolding run
  run_raises_iff as_date http_get base_url source_id jurisdiction = (
    λ h. elim (Bool-cases (upper jurisdiction == text "EU")) [
      | inr e ↦ cc (rw e at h)
      | inl e ↦ elim (Option-cases (query_api http_get base_url source_id)) [
        | inl q ↦ cc (rw q at rw e at h)
        | inr (none, q) ↦ cc (rw q at rw e at h)
        | inr (some meta, q) ↦ (e, (meta, q, (refused_output as_date meta).0 (rw q at rw e at h)))
      ]
    ],
    λ (e, (meta, q, refused)). rw e (rw q ((refused_output as_date meta).1 refused)),
  )
