-- ===== src/Tests.antt =====
-- Runs of the models, and each theorem that has hypotheses applied where they hold.
mod Sample
mod Engine
mod Documents
mod Memories
mod Caches
mod Requests
mod Shapes
pub mod Stores
mod Relays
mod Refusals
