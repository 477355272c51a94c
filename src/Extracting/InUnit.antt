-- ===== src/Extracting/InUnit.antt =====
-- What the readings of `_parse` return: each value, clause and route has a confidence in [0, 1].
use compliance_wizard_engine.Prelude.{
  ℕ, ◌≡◌, true, Option, none, some, List, [], ◌∷◌, All, Text, text, Floats, Ensures, raised,
  returns, Ensures-some, Ensures-bind, Ensures-if, Option-cases, inl, inr, if_ind,
}
use compliance_wizard_engine.Schemas.{
  in_unit, ExtractedField, RawApplicabilityCondition, ConformityRoute,
}
use compliance_wizard_engine.Extracting.Json.{
  Cast, value, refused, overflowed, Json, null, bool, number, string, array, object, Members,
  list_of, member_of,
}
use compliance_wizard_engine.Extracting.Parse.{
  opt_cons, caught, collect, field_of_members, field_of, field_at, fields_at, raw_condition_of,
  condition_of_members, route_of, route_of_members,
}

Ensures-caught :
    {A B : Type 0} (P : B → Type 0) (c : Cast A) (f : A → Option (Option B))
    → ((a : A) → Ensures (Ensures P) (f a))
    → Ensures (Ensures P) (caught c f)
unfolding caught
Ensures-caught P (value a) f h = h a
Ensures-caught P refused f h = returns raised
Ensures-caught P overflowed f h = raised

pub Ensures-collect :
    {F A : Type 0} (P : A → Type 0) (step : Json F → Option (Option A))
    → ((x : Json F) → Ensures (Ensures P) (step x))
    → (xs : List (Json F)) → Ensures (All P) (collect step xs)
unfolding collect
Ensures-collect P step h [] = returns tt
Ensures-collect {A = A} P step h (x ∷ xs) =
    Ensures-bind (Ensures P) (All P) (step x) _ (h x) (λ r p.
      Ensures-bind (All P) (All P) (collect step xs) _ (Ensures-collect P step h xs)
        (λ rs q. returns (kept r rs p q)))
  where
    kept : (r : Option A) (rs : List A) → Ensures P r → All P rs → All P (opt_cons r rs)
    kept none rs p q = q
    kept (some a) rs p q = (Ensures-some p, q)

module _ {F : Type 0} ⦃fl : Floats F⦄ where
  abbrev pub FieldInUnit : ExtractedField F → Type 0
  FieldInUnit f = in_unit f.confidence ≡ true

  abbrev pub ClauseInUnit : RawApplicabilityCondition F → Type 0
  ClauseInUnit c = in_unit c.confidence ≡ true

  abbrev pub RouteInUnit : ConformityRoute F → Type 0
  RouteInUnit r = in_unit r.confidence ≡ true

  module _ (parse_int : Text → Option ℕ) where
    field_of_members-InUnit :
        (m : Members F) → Ensures (Ensures FieldInUnit) (field_of_members parse_int m)
    unfolding field_of_members
    field_of_members-InUnit m = elim (Option-cases (member_of (text "value") m)) [
      | inl e ↦ rw (e, field_of_members) (returns raised)
      | inr (v, e) ↦
          rw (e, field_of_members)
            (if_ind (Ensures (Ensures FieldInUnit)) _ (returns raised) (
              Ensures-caught FieldInUnit _ _ (λ conf.
                Ensures-caught FieldInUnit _ _
                  (λ index. returns (Ensures-if FieldInUnit _ _ (λ h. h))))))
    ]

    field_of-InUnit : (x : Json F) → Ensures (Ensures FieldInUnit) (field_of parse_int x)
    unfolding field_of
    field_of-InUnit (object shown m) = field_of_members-InUnit m
    field_of-InUnit null = returns raised
    field_of-InUnit (bool b) = returns raised
    field_of-InUnit (number as_float as_int shown truth) = returns raised
    field_of-InUnit (string s) = returns raised
    field_of-InUnit (array shown items) = returns raised

    pub field_at-InUnit :
        (key : Text) (m : Members F) → Ensures (Ensures FieldInUnit) (field_at parse_int key m)
    unfolding field_at
    field_at-InUnit key m = elim (Option-cases (member_of key m)) [
      | inl e ↦ rw (e, field_at) (returns raised)
      | inr (x, e) ↦ rw (e, field_at) (field_of-InUnit x)
    ]

    fields_in :
        (o : Option (Json F))
        → Ensures (All FieldInUnit) (elim o [
          | some (array shown items) ↦ collect (field_of parse_int) (list_of items)
          | _ ↦ some []
        ])
    fields_in none = returns tt
    fields_in (some (array shown items)) =
        Ensures-collect FieldInUnit (field_of parse_int) field_of-InUnit (list_of items)
    fields_in (some null) = returns tt
    fields_in (some (bool b)) = returns tt
    fields_in (some (number as_float as_int shown truth)) = returns tt
    fields_in (some (string s)) = returns tt
    fields_in (some (object shown m)) = returns tt

    pub fields_at-InUnit :
        (key : Text) (m : Members F) → Ensures (All FieldInUnit) (fields_at parse_int key m)
    unfolding fields_at
    fields_at-InUnit key m = fields_in (member_of key m)

    pub raw_condition_of-InUnit :
        (x : Json F) → Ensures (Ensures ClauseInUnit) (raw_condition_of parse_int x)
    unfolding raw_condition_of condition_of_members
    raw_condition_of-InUnit (object shown m) =
        Ensures-caught ClauseInUnit _ _ (λ conf. returns (Ensures-if ClauseInUnit _ _ (λ h. h)))
    raw_condition_of-InUnit null = returns raised
    raw_condition_of-InUnit (bool b) = returns raised
    raw_condition_of-InUnit (number as_float as_int shown truth) = returns raised
    raw_condition_of-InUnit (string s) = returns raised
    raw_condition_of-InUnit (array shown items) = returns raised

    pub route_of-InUnit : (x : Json F) → Ensures (Ensures RouteInUnit) (route_of parse_int x)
    unfolding route_of route_of_members
    route_of-InUnit (object shown m) = Ensures-caught RouteInUnit _ _ (λ conf.
        Ensures-caught RouteInUnit _ _ (λ index. returns (Ensures-if RouteInUnit _ _ (λ h. h))))
    route_of-InUnit null = returns raised
    route_of-InUnit (bool b) = returns raised
    route_of-InUnit (number as_float as_int shown truth) = returns raised
    route_of-InUnit (string s) = returns raised
    route_of-InUnit (array shown items) = returns raised
