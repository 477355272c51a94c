-- ===== src/Relations/Examples.antt =====
-- A small graph of regulations, identifiers, and the theorems of Relations at work on them.
use compliance_wizard_engine.Prelude.{
  ℕ, ◌≡◌, ◌↔◌, refl, true, false, List, [], ◌∷◌, text, starts_with, strip, take_while, lower,
  is_digit, is_space, number_from, thousandths, arith, nat_eq,
}
use compliance_wizard_engine.Vocabulary.{amends, amended_by, inverse, relation_beq, text_extracted}
use compliance_wizard_engine.Store.{Edge}
use compliance_wizard_engine.Relations.Identifiers.{
  regulation, is_three, is_celex, citation, year_digits, full_year, year_and_number, type_letter,
  celex_of, normalize_identifier,
}
use compliance_wizard_engine.Relations.Walks.{all_rows, path_exists}
use compliance_wizard_engine.Relations.Resolver.{
  Graph, stub_of, edge_of, is_guarded, write_edge, resolve_relationships,
}
use compliance_wizard_engine.Relations.Celex.{normalize_identifier-celex_of}
use compliance_wizard_engine.Relations.Reachability.{Reach, one, more}
use compliance_wizard_engine.Relations.Completeness.{path_exists_iff}
use compliance_wizard_engine.Relations.Cycles.{
  IsAcyclic, write_edge-IsAcyclic, amended_by_closes_cycle,
}
use compliance_wizard_engine.Relations.Mirrors.{IsConsistent, resolve_relationships-IsConsistent}

-- Regulation 1 amends 2, and 2 amends 3.
abbrev edges : List (Edge ℕ)
edges =
    edge_of 1 2 amends (text "a") 500 text_extracted
    ∷ edge_of 2 3 amends (text "b") 500 text_extracted
    ∷ []

one_to_three : path_exists edges 1 3 amends ≡ true
unfolding path_exists relation_beq all_rows
one_to_three = refl

three_to_one : path_exists edges 3 1 amends ≡ false
unfolding path_exists relation_beq all_rows
three_to_one = refl

path_exists_iff_example :
    (path_exists edges 1 3 amends ≡ true) ↔ Reach (relation_beq amends) edges 1 3
path_exists_iff_example = path_exists_iff edges 1 3 amends (λ e. cc)

-- No edge, no cycle.
empty-IsAcyclic : {F : Type 0} → IsAcyclic {F = F} amends []
empty-IsAcyclic a (one h) = cc
empty-IsAcyclic a (more r h) = cc

write_edge-IsAcyclic_example :
    IsAcyclic {F = ℕ} amends (write_edge [] 1 2 amends (text "a") 500 text_extracted)
unfolding is_guarded inverse
write_edge-IsAcyclic_example =
    write_edge-IsAcyclic [] 1 2 amends amends (text "a") 500 text_extracted refl (λ e. cc)
      (λ e. omega (arith, e)) empty-IsAcyclic

amends_path : Reach (relation_beq amends) edges 1 3
unfolding relation_beq
amends_path = more (one {b = 2} refl) refl

amended_by_closes_cycle_example :
    Reach (relation_beq amends) (write_edge edges 1 3 amended_by (text "c") 500 text_extracted) 1 1
amended_by_closes_cycle_example =
    amended_by_closes_cycle edges 1 3 (text "c") 500 text_extracted amends_path

citation_text : normalize_identifier (text " Directive 2014/35/EU ") ≡ text "32014L0035"
unfolding normalize_identifier celex_of is_celex strip is_space is_three citation starts_with lower
    is_digit take_while year_digits full_year year_and_number number_from type_letter
citation_text = refl

normalize_identifier-celex_of_example :
    (is_celex (celex_of regulation 2016 425) ≡ true)
    × (normalize_identifier (celex_of regulation 2016 425) ≡ celex_of regulation 2016 425)
unfolding full_year year_and_number
normalize_identifier-celex_of_example =
    normalize_identifier-celex_of regulation 2016 425 (omega arith)

-- One regulation, whose text mentions another and itself.
abbrev graph : Graph ℕ
graph = record { regulations = stub_of 1 (text "32014L0035") ∷ []; edges = []; fresh = 2 }

graph-IsConsistent : IsConsistent graph
graph-IsConsistent = record {
  mirrored = λ a b t h. cc;
  no_loop = refl;
  keyed = (refl, tt);
  below = (omega arith, tt);
}

resolve-IsConsistent_example : IsConsistent (
    resolve_relationships 1
      (text "Directive 2006/95/EC" ∷ text "Directive 2014/35/EU" ∷ [])
      []
      graph)
resolve-IsConsistent_example =
    resolve_relationships-IsConsistent 1
      (text "Directive 2006/95/EC" ∷ text "Directive 2014/35/EU" ∷ []) [] graph graph-IsConsistent
