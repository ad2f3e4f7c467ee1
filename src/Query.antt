-- ===== src/Query.antt =====
-- The query engine (query/): its language, the normaliser and the evaluator.
pub mod Language
pub mod Normalize
pub mod Evaluate
pub mod Server
pub mod Serving
