-- ===== src/Wizard/Reviews.antt =====
-- `query` of engine/wizard_matcher.py and the decisions of the reviewers.
use compliance_wizard_engine.Prelude.{List, nat_eq}
use compliance_wizard_engine.Vocabulary.{ReviewStatus}
use compliance_wizard_engine.Store.{Condition}

module _ {F : Type 0} (decision : Condition F → ReviewStatus) where
  -- The condition after a reviewer has decided on it.
  abbrev pub reviewed : Condition F → Condition F
  reviewed c = record c { review_status = decision c }
