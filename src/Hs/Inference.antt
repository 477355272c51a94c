-- ===== src/Hs/Inference.antt =====
-- engine/hs_inference.py: the candidate codes in a model's answer. `ask` is the call of the model and
-- the reading of its answer as JSON: None where the call raises, and None again for text that is no
-- JSON. `nomenclature` holds the known codes, `max_codes` is HS_INFERENCE_MAX_CODES.
use compliance_wizard_engine.Prelude.{
  ℕ, suc, Bool, ◌||◌, not, Option, none, some, List, [], ◌∷◌, Text, text, is_nil, strip, digits,
  joined, contains, take, length, keep, leb, ltb, text_eq, nat_eq, if◌then◌else◌, Floats, clamp,
  ◌>>=◌, opt_text_or,
}
use compliance_wizard_engine.Extracting.Json.{
  value, refused, overflowed, Json, array, object, Members, list_of, member_of, text_at, json_float,
  members_of,
}

-- The parts of the context that are not blank.
unfoldable pub context_of : Option Text → Text → Text
unfolding joined
context_of summary scope =
    strip (
      joined (text "\n") (keep (λ p. not (is_nil (strip p))) (opt_text_or summary [] ∷ scope ∷ [])))

-- `re.sub(r"\D", "", str(item.get("code", "")))[:6]`
unfoldable pub code_six : {F : Type 0} → Members F → Text
unfolding text_at digits
code_six m = take 6 (digits (text_at (text "code") [] m))

-- A code that the loop passes over.
abbrev pub is_passed : List Text → List Text → Text → Bool
is_passed nomenclature seen code =
    ltb (length code) 6 || contains code seen || not (contains code nomenclature)

module _ {F : Type 0} ⦃fl : Floats F⦄ where
  -- `float(item.get("confidence", 0.5))`, 0.5 where it raises TypeError or ValueError
  unfoldable pub proposed_confidence : Members F → Option F
  unfolding member_of json_float
  proposed_confidence m = elim (member_of (text "confidence") m) [
    | none ↦ some (fl.milli 500)
    | some x ↦ elim (json_float x) [
      | value conf ↦ some conf
      | refused ↦ some (fl.milli 500)
      | overflowed ↦ none
    ]
  ]

  -- `round(min(max(conf, 0.0), _MAX_INFERRED_CONFIDENCE), 3)`
  unfoldable pub capped : F → F
  capped conf = fl.round3 (clamp (fl.milli 0) (fl.milli 600) conf)

  -- The loop over the proposals, with the codes seen so far.
  unfoldable pub candidates : List Text → ℕ → List Text → List (Json F) → Option (List (Text × F))
  unfolding code_six proposed_confidence capped
  candidates nomenclature max_codes seen [] = some []
  candidates nomenclature max_codes seen (object shown m ∷ items) =
      let code = code_six m in
      let passed = candidates nomenclature max_codes seen items in
      let rest = candidates nomenclature max_codes (code ∷ seen) items in
      if is_passed nomenclature seen code
      then passed
      else proposed_confidence m >>= λ conf.
          (if leb max_codes (suc (length seen)) then some [] else rest) >>= λ later.
          some ((code, capped conf) ∷ later)
  candidates nomenclature max_codes seen (x ∷ items) = candidates nomenclature max_codes seen items

  -- `data.get("hs_codes")`, if it is a list
  unfoldable pub proposals : Members F → Option (List (Json F))
  unfolding member_of list_of
  proposals m = elim (member_of (text "hs_codes") m) [
    | some (array shown items) ↦ some (list_of items)
    | _ ↦ none
  ]

  unfoldable pub infer_hs_codes :
      (Text → Option (Option (Json F)))
      → List Text
      → ℕ
      → Text
      → Option Text
      → Option (List (Text × F))
  unfolding context_of members_of proposals candidates
  infer_hs_codes ask nomenclature max_codes scope summary =
      let context = context_of summary scope in
      if is_nil context
      then some []
      else ask context >>= λ answer. elim (proposals (members_of answer)) [
        | none ↦ some []
        | some items ↦ candidates nomenclature max_codes [] items
      ]
