-- ===== src/Wizard.antt =====
-- engine/wizard_matcher.py: the status of each candidate regulation for a product. The definitions
-- are in Evaluation and Results, the theorems in the other modules.
pub mod Evaluation
pub mod Results
pub mod Decisions
pub mod Ranking
pub mod Totality
pub mod Reviews
mod Examples
