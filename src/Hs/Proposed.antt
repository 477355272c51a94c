-- ===== src/Hs/Proposed.antt =====
-- The inferred candidates: known codes, each once, with a confidence that keeps them below a match.
use compliance_wizard_engine.Prelude.{
  ℕ, suc, ◌+◌, ◌≤◌, ◌<◌, ◌≡◌, subst, true, false, Option, none, some, List, [], ◌∷◌, Text, is_nil,
  contains, length, leb, text_eq, if◌then◌else◌, Floats, clamp, IsOrdered, clamp_bounds, arith,
  Bool-cases, inl, inr, length-take-le, Ensures, returns, Ensures-weaken, Ensures-bind, any_result,
  if_ind, leb-false,
}
use compliance_wizard_engine.Extracting.Json.{
  Json, null, bool, number, string, array, object, Members, members_of,
}
use compliance_wizard_engine.Hs.Inference.{
  context_of, code_six, proposed_confidence, capped, is_passed, candidates, proposals,
  infer_hs_codes,
}

code_six-le : {F : Type 0} (m : Members F) → length (code_six m) ≤ 6
unfolding code_six
code_six-le m = length-take-le 6 _

module _ {F : Type 0} ⦃fl : Floats F⦄ (o : IsOrdered fl) (nomenclature : List Text)
    (max_codes : ℕ) where
  -- A candidate with a known code of six digits that is none of `seen`, and a capped confidence.
  abbrev pub IsCandidate : List Text → Text × F → Type 0
  IsCandidate seen cand =
      (contains cand.0 nomenclature ≡ true)
      × (length cand.0 ≡ 6)
      × (contains cand.0 seen ≡ false)
      × (fl.fle (fl.milli 0) cand.1 ≡ true)
      × (fl.fle cand.1 (fl.milli 600) ≡ true)

  -- Each candidate is known and no earlier one has its code.
  abbrev pub AreCandidates : List Text → List (Text × F) → Type 0
  AreCandidates seen [] = Unit
  AreCandidates seen (cand ∷ cands) = IsCandidate seen cand × AreCandidates (cand.0 ∷ seen) cands

  capped_bounds :
      (conf : F)
      → (fl.fle (fl.milli 0) (capped conf) ≡ true) × (fl.fle (capped conf) (fl.milli 600) ≡ true)
  unfolding capped
  capped_bounds conf =
      let (low, high) =
        clamp_bounds o (fl.milli 0) (fl.milli 600) conf (o.milli_mono 0 600 (omega arith)) in
      (
        subst (λ x. fl.fle x (fl.round3 (clamp (fl.milli 0) (fl.milli 600) conf)) ≡ true)
            (o.round_milli 0) (o.round_mono _ _ low),
        subst (λ x. fl.fle (fl.round3 (clamp (fl.milli 0) (fl.milli 600) conf)) x ≡ true)
            (o.round_milli 600) (o.round_mono _ _ high),
      )

  -- The candidates that follow those seen, and how many there can be.
  abbrev Follows : List Text → List (Text × F) → Type 0
  Follows seen cands =
      AreCandidates seen cands
      × ((length seen < max_codes) → length seen + length cands ≤ max_codes)

  abbrev Next : List Text → Text → List (Text × F) → Type 0
  Next seen code later =
      AreCandidates (code ∷ seen) later
      × ((length seen < max_codes) → suc (length seen) + length later ≤ max_codes)

  next :
      (seen : List Text) (code : Text) (rest : Option (List (Text × F)))
      → Ensures (Follows (code ∷ seen)) rest
      → Ensures (Next seen code) (if leb max_codes (suc (length seen)) then some [] else rest)
  next seen code rest h = elim (Bool-cases (leb max_codes (suc (length seen)))) [
    | inl e ↦ rw e (returns (tt, λ room. omega (arith, room)))
    | inr e ↦ rw e (
        Ensures-weaken
          (λ later k. (k.0, λ room. omega (arith, k.1 (leb-false max_codes (suc (length seen)) e))))
          h)
  ]

  is_candidate :
      (seen : List Text) (m : Members F) (conf : F)
      → is_passed nomenclature seen (code_six m) ≡ false
      → IsCandidate seen (code_six m, capped conf)
  is_candidate seen m conf e =
      let (low, high) = capped_bounds conf in
      let short = code_six-le m in (ground arith, ground (arith, short), ground arith, low, high)

  candidates-Follows :
      (seen : List Text) (items : List (Json F))
      → Ensures (Follows seen) (candidates nomenclature max_codes seen items)
  unfolding candidates
  candidates-Follows seen [] = returns (tt, λ h. omega (arith, h))
  candidates-Follows seen (object shown m ∷ items) =
      elim (Bool-cases (is_passed nomenclature seen (code_six m))) [
        | inl e ↦ rw e (candidates-Follows seen items)
        | inr e ↦
            let code = code_six m in
            rw e (
              Ensures-bind (λ c. Unit) (Follows seen) (proposed_confidence m) _ (any_result _)
                (λ conf _.
                  Ensures-bind (Next seen code) (Follows seen)
                    (if leb max_codes (suc (length seen))
                      then some []
                      else candidates nomenclature max_codes (code ∷ seen) items)
                    _ (next seen code _ (candidates-Follows (code ∷ seen) items))
                    (λ later n.
                      returns
                        ((is_candidate seen m conf e, n.0), λ room. omega (arith, n.1 room)))))
      ]
  candidates-Follows seen (null ∷ items) = candidates-Follows seen items
  candidates-Follows seen (bool b ∷ items) = candidates-Follows seen items
  candidates-Follows seen (number as_float as_int shown truth ∷ items) =
      candidates-Follows seen items
  candidates-Follows seen (string s ∷ items) = candidates-Follows seen items
  candidates-Follows seen (array shown l ∷ items) = candidates-Follows seen items

  -- On floats without NaN, and where HS_INFERENCE_MAX_CODES is not 0: each inferred code has six digits
  -- and stands in the nomenclature, none is listed twice, there are at most HS_INFERENCE_MAX_CODES, and
  -- each confidence lies between 0 and 0.6.
  pub infer_hs_codes-AreCandidates :
      (ask : Text → Option (Option (Json F))) (scope : Text) (summary : Option Text)
      → 0 < max_codes
      → Ensures
          (λ cands. AreCandidates [] cands × (length cands ≤ max_codes))
          (infer_hs_codes ask nomenclature max_codes scope summary)
  unfolding infer_hs_codes
  infer_hs_codes-AreCandidates ask scope summary room =
      if_ind (Ensures Good) (is_nil (context_of summary scope)) (returns (tt, omega arith)) (
        Ensures-bind (λ a. Unit) Good (ask (context_of summary scope)) _ (any_result _)
          (λ answer _. from (proposals (members_of answer))))
    where
      Good : List (Text × F) → Type 0
      Good cands = AreCandidates [] cands × (length cands ≤ max_codes)

      from :
          (p : Option (List (Json F)))
          → Ensures Good
              (elim p [ none ↦ some [] | some items ↦ candidates nomenclature max_codes [] items ])
      from none = returns (tt, omega arith)
      from (some items) =
          Ensures-weaken (λ cands k. (k.0, omega (arith, k.1 room))) (candidates-Follows [] items)
