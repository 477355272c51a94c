-- ===== src/Relations.antt =====
-- engine/relationship_resolver.py: identifiers of cited regulations, the typed edges between
-- regulations, and the walks along them. The definitions are in Identifiers, Walks and Resolver,
-- the theorems in the other modules.
pub mod Identifiers
pub mod Walks
pub mod Resolver
pub mod Celex
pub mod Reachability
mod SimpleWalks
pub mod Completeness
pub mod Cycles
pub mod Keys
pub mod Mirrors
mod Examples
