-- ===== src/Tests.antt =====
-- Runs of the code at concrete inputs, and the theorems at inputs that meet their hypotheses.
pub mod Dfa
pub mod Followed
pub mod Manifests
pub mod Sample
pub mod Repeat
pub mod Keys
pub mod Classes
pub mod Stores
pub mod Events
pub mod Handlers
pub mod Automata
