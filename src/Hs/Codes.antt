-- ===== src/Hs/Codes.antt =====
-- `_match_score`: which codes match, and that the order of the two codes does not matter.
use compliance_wizard_engine.Prelude.{
  ◌≡◌, ◌⊎◌, ◌↔◌, ◌≤◌, true, false, Text, is_nil, length, take, is_some, arith, text_eq,
  text_beq_iff, Floats,
}
use compliance_wizard_engine.Hs.{match_score}

module _ {F : Type 0} ⦃fl : Floats F⦄ where
  -- The score is the same whichever of the two codes is the user's.
  pub match_score_comm :
      (u code : Text) (stored : F) → match_score u code stored ≡ match_score code u stored
  unfolding match_score
  match_score_comm u code stored = ground (
    arith,
    text_beq_iff u code,
    text_beq_iff code u,
    text_beq_iff (take 6 u) (take 6 code),
    text_beq_iff (take 6 code) (take 6 u),
  )

  -- A code matches exactly when both are present and they are equal or share six digits.
  pub match_score_iff :
      (u code : Text) (stored : F)
      → (is_some (match_score u code stored) ≡ true) ↔ (
          (is_nil u ≡ false)
          × (is_nil code ≡ false)
          × ((u ≡ code) ⊎ ((6 ≤ length u) × (6 ≤ length code) × (take 6 u ≡ take 6 code))))
  unfolding match_score
  match_score_iff u code stored = (
    λ h. ground (arith, text_beq_iff u code, text_beq_iff (take 6 u) (take 6 code)),
    λ h. ground (arith, text_beq_iff u code, text_beq_iff (take 6 u) (take 6 code)),
  )
