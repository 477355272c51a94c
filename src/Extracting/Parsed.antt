-- ===== src/Extracting/Parsed.antt =====
-- What the values that `_parse` returns have in common, and when it raises.
use compliance_wizard_engine.Prelude.{
  ℕ, ◌≡◌, subst, Option, none, some, All, Text, text, Floats, Ensures, returns, Ensures-bind,
  any_result, stops, stops_here,
}
use compliance_wizard_engine.Schemas.{ExtractOutput}
use compliance_wizard_engine.Extracting.Json.{Json, Members, member_of}
use compliance_wizard_engine.Extracting.Parse.{
  mentions_of, iterated, iterated_or_none, raw_condition_of, route_of, Scalars, Arrays,
  parse_scalars, parse_arrays, parse_conditions, parse_routes, parse,
}
use compliance_wizard_engine.Extracting.InUnit.{
  Ensures-collect, FieldInUnit, ClauseInUnit, RouteInUnit, field_at-InUnit, fields_at-InUnit,
  raw_condition_of-InUnit, route_of-InUnit,
}

module _ {F : Type 0} ⦃fl : Floats F⦄ where
  module _ (parse_int : Text → Option ℕ) where
    pub record ScalarsInUnit (s : Scalars F) : Type 0 where
      pub scope : Ensures FieldInUnit s.scope_description
      pub testing : Ensures FieldInUnit s.conformity_path_testing
      pub inspection : Ensures FieldInUnit s.conformity_path_inspection
      pub assessment : Ensures FieldInUnit s.conformity_assessment_type
      pub body : Ensures FieldInUnit s.conformity_body_type
      pub technical : Ensures FieldInUnit s.technical_documentation
      pub production : Ensures FieldInUnit s.production_type

    pub record ArraysInUnit (a : Arrays F) : Type 0 where
      pub params : All FieldInUnit a.scope_params
      pub hs : All FieldInUnit a.hs_codes
      pub docs : All FieldInUnit a.conformity_docs
      pub entities : All FieldInUnit a.legal_entities
      pub standards : All FieldInUnit a.standards_references
      pub harmonized : All FieldInUnit a.standards_harmonized
      pub marks : All FieldInUnit a.markings
      pub bodies : All FieldInUnit a.certification_bodies
      pub excluded : All FieldInUnit a.exclusions

    parse_scalars-InUnit : (m : Members F) → Ensures ScalarsInUnit (parse_scalars parse_int m)
    unfolding parse_scalars
    parse_scalars-InUnit m =
        Ensures-bind (Ensures FieldInUnit) ScalarsInUnit _ _
          (field_at-InUnit parse_int (text "scope_description") m)
          (λ scope scope_in.
            Ensures-bind (Ensures FieldInUnit) ScalarsInUnit _ _
              (field_at-InUnit parse_int (text "conformity_path_testing") m)
              (λ testing testing_in.
                Ensures-bind (Ensures FieldInUnit) ScalarsInUnit _ _
                  (field_at-InUnit parse_int (text "conformity_path_inspection") m)
                  (λ inspection inspection_in.
                    Ensures-bind (Ensures FieldInUnit) ScalarsInUnit _ _
                      (field_at-InUnit parse_int (text "conformity_assessment_type") m)
                      (λ assessment assessment_in.
                        Ensures-bind (Ensures FieldInUnit) ScalarsInUnit _ _
                          (field_at-InUnit parse_int (text "conformity_body_type") m)
                          (λ body body_in.
                            Ensures-bind (Ensures FieldInUnit) ScalarsInUnit _ _
                              (field_at-InUnit parse_int (text "technical_documentation") m)
                              (λ technical technical_in.
                                Ensures-bind (Ensures FieldInUnit) ScalarsInUnit _ _
                                  (field_at-InUnit parse_int (text "production_type") m)
                                  (λ production production_in. returns (record {
                                    scope = scope_in;
                                    testing = testing_in;
                                    inspection = inspection_in;
                                    assessment = assessment_in;
                                    body = body_in;
                                    technical = technical_in;
                                    production = production_in;
                                  }))))))))

    parse_arrays-InUnit : (m : Members F) → Ensures ArraysInUnit (parse_arrays parse_int m)
    unfolding parse_arrays
    parse_arrays-InUnit m =
        Ensures-bind (All FieldInUnit) ArraysInUnit _ _
          (fields_at-InUnit parse_int (text "scope_params") m)
          (λ params params_in.
            Ensures-bind (All FieldInUnit) ArraysInUnit _ _
              (fields_at-InUnit parse_int (text "hs_codes") m)
              (λ hs hs_in.
                Ensures-bind (All FieldInUnit) ArraysInUnit _ _
                  (fields_at-InUnit parse_int (text "conformity_docs") m)
                  (λ docs docs_in.
                    Ensures-bind (All FieldInUnit) ArraysInUnit _ _
                      (fields_at-InUnit parse_int (text "legal_entities") m)
                      (λ entities entities_in.
                        Ensures-bind (All FieldInUnit) ArraysInUnit _ _
                          (fields_at-InUnit parse_int (text "standards_references") m)
                          (λ standards standards_in.
                            Ensures-bind (All FieldInUnit) ArraysInUnit _ _
                              (fields_at-InUnit parse_int (text "standards_harmonized") m)
                              (λ harmonized harmonized_in.
                                Ensures-bind (All FieldInUnit) ArraysInUnit _ _
                                  (fields_at-InUnit parse_int (text "markings") m)
                                  (λ marks marks_in.
                                    Ensures-bind (All FieldInUnit) ArraysInUnit _ _
                                      (fields_at-InUnit parse_int (text "certification_bodies") m)
                                      (λ bodies bodies_in.
                                        Ensures-bind (All FieldInUnit) ArraysInUnit _ _
                                          (fields_at-InUnit parse_int (text "exclusions") m)
                                          (λ excluded excluded_in. returns (record {
                                            params = params_in;
                                            hs = hs_in;
                                            docs = docs_in;
                                            entities = entities_in;
                                            standards = standards_in;
                                            harmonized = harmonized_in;
                                            marks = marks_in;
                                            bodies = bodies_in;
                                            excluded = excluded_in;
                                          }))))))))))

    parse_conditions-InUnit :
        (m : Members F) → Ensures (All ClauseInUnit) (parse_conditions parse_int m)
    unfolding parse_conditions
    parse_conditions-InUnit m =
        Ensures-bind (λ cs. Unit) (All ClauseInUnit)
          (iterated_or_none (member_of (text "applicability_conditions") m)) _ (any_result _)
          (λ cs _.
            Ensures-collect ClauseInUnit (raw_condition_of parse_int)
              (raw_condition_of-InUnit parse_int) cs)

    parse_routes-InUnit : (m : Members F) → Ensures (All RouteInUnit) (parse_routes parse_int m)
    unfolding parse_routes
    parse_routes-InUnit m =
        Ensures-bind (λ rs. Unit) (All RouteInUnit)
          (iterated_or_none (member_of (text "conformity_routes") m)) _ (any_result _)
          (λ rs _. Ensures-collect RouteInUnit (route_of parse_int) (route_of-InUnit parse_int) rs)

    -- The confidences of an extraction.
    pub record InUnit (out : ExtractOutput F) : Type 0 where
      pub scope : Ensures FieldInUnit out.scope_description
      pub testing : Ensures FieldInUnit out.conformity_path_testing
      pub inspection : Ensures FieldInUnit out.conformity_path_inspection
      pub assessment : Ensures FieldInUnit out.conformity_assessment_type
      pub body : Ensures FieldInUnit out.conformity_body_type
      pub technical : Ensures FieldInUnit out.technical_documentation
      pub production : Ensures FieldInUnit out.production_type
      pub params : All FieldInUnit out.scope_params
      pub hs : All FieldInUnit out.hs_codes
      pub docs : All FieldInUnit out.conformity_docs
      pub entities : All FieldInUnit out.legal_entities
      pub standards : All FieldInUnit out.standards_references
      pub harmonized : All FieldInUnit out.standards_harmonized
      pub marks : All FieldInUnit out.markings
      pub bodies : All FieldInUnit out.certification_bodies
      pub excluded : All FieldInUnit out.exclusions
      pub clauses : All ClauseInUnit out.applicability_conditions
      pub routes : All RouteInUnit out.conformity_routes

    -- Whatever the model answers, each value, clause and route of an extraction has a confidence in
    -- [0, 1].
    pub parse-InUnit : (m : Members F) → Ensures InUnit (parse parse_int m)
    unfolding parse
    parse-InUnit m = Ensures-bind ScalarsInUnit InUnit _ _ (parse_scalars-InUnit m) (λ scalars s.
        Ensures-bind ArraysInUnit InUnit _ _ (parse_arrays-InUnit m) (λ arrays a.
          Ensures-bind (λ ms. Unit) InUnit (mentions_of (member_of (text "regulation_mentions") m))
            _ (any_result _)
            (λ mentions _.
              Ensures-bind (All ClauseInUnit) InUnit _ _ (parse_conditions-InUnit m) (λ conds c.
                Ensures-bind (All RouteInUnit) InUnit _ _ (parse_routes-InUnit m) (λ routes r.
                  returns (record {
                    scope = s.scope;
                    testing = s.testing;
                    inspection = s.inspection;
                    assessment = s.assessment;
                    body = s.body;
                    technical = s.technical;
                    production = s.production;
                    params = a.params;
                    hs = a.hs;
                    docs = a.docs;
                    entities = a.entities;
                    standards = a.standards;
                    harmonized = a.harmonized;
                    marks = a.marks;
                    bodies = a.bodies;
                    excluded = a.excluded;
                    clauses = c;
                    routes = r;
                  }))))))

    refused_mentions :
        (o : Option (Json F)) {x : Json F} → o ≡ some x → iterated x ≡ none → mentions_of o ≡ none
    unfolding mentions_of
    refused_mentions none e h = cc
    refused_mentions (some y) {x = x} e h =
        let same : x ≡ y = cc in stops_here _ (subst (λ z. iterated z ≡ none) same h)

    -- An answer whose regulation_mentions are null, a number or a Boolean makes `_parse` raise,
    -- whatever else it holds, although the prompt asks for null where a value is not present.
    pub parse_raises_on_null :
        (m : Members F) {x : Json F}
        → member_of (text "regulation_mentions") m ≡ some x
        → iterated x ≡ none
        → parse parse_int m ≡ none
    unfolding parse
    parse_raises_on_null m e h = stops (parse_scalars parse_int m) _ (λ scalars.
        stops (parse_arrays parse_int m) _ (λ arrays.
          stops_here _ (refused_mentions (member_of (text "regulation_mentions") m) e h)))
