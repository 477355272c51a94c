-- ===== src/Intake/Examples.antt =====
-- Jobs from uploads and from the catalogue, and the theorems of Intake at work on them.
use compliance_wizard_engine.Prelude.{
  ◌≡◌, refl, none, some, [], text, text_beq, upper, take_while, drop_while, is_space, is_digit,
  is_upper, is_alnum, arith,
}
use compliance_wizard_engine.Intake.{
  Tables, safe_from, stored_name, celex_at, detect_celex, enqueue,
}
use compliance_wizard_engine.Intake.Interleaved.{
  enqueues, Reaches, here, next, IsSound, Reaches-IsSound,
}

-- The name of an upload may carry a CELEX id.
detected :
    (detect_celex (text "my celex-32014l0035.pdf") ≡ some (text "32014L0035"))
    × (detect_celex (text "CELEX_2014L0035") ≡ none)
unfolding detect_celex celex_at text_beq upper take_while drop_while is_space is_digit is_upper
detected = (refl, refl)

stored : stored_name (text "1a2b") (text "a b/c?.pdf") ≡ text "1a2b_a_b_c_.pdf"
unfolding stored_name safe_from is_alnum
stored = refl

abbrev empty_tables : Tables
empty_tables = record { regulations = []; jobs = []; fresh = 1; now = 5 }

abbrev enqueued : Tables
enqueued = (enqueue (text "32014L0035") none empty_tables).0

abbrev again : Tables
again = (enqueue (text "32014L0035") none enqueued).0

empty-IsSound : IsSound empty_tables
empty-IsSound = record { single = λ id. omega arith; keyed = tt; below = tt }

two_steps : Reaches empty_tables again
two_steps =
    next (next here (enqueues empty_tables (text "32014L0035") none))
      (enqueues enqueued (text "32014L0035") none)

Reaches-IsSound_example : IsSound again
Reaches-IsSound_example = Reaches-IsSound empty-IsSound two_steps
