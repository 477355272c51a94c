-- ===== src/Pipeline.antt =====
-- pipeline.py: identity, persistence and resolution of one document. The agents that call a model or
-- a service (Read, Extract, Fetch, HS inference) give their outputs as arguments.
pub mod Persist
pub mod Document
pub mod Regulations
pub mod Storage
pub mod Ingest
pub mod Reached
pub mod Examples
pub mod Review
