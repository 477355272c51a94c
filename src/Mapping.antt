-- ===== src/Mapping.antt =====
-- agents/mapping_agent.py: raw extracted values to the canonical taxonomy, and raw conditions to
-- structured ones.
pub mod Normalize
pub mod Structure
pub mod Fields
pub mod Structuring
pub mod Evaluated
pub mod Provenance
pub mod Examples
