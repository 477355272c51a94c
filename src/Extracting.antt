-- ===== src/Extracting.antt =====
-- agents/extract_agent.py: which segments the prompt shows, and what is read from the model's answer.
pub mod Json
pub mod Parse
pub mod InUnit
pub mod Parsed
pub mod Budget
pub mod Survive
mod Examples
