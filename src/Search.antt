-- ===== src/Search.antt =====
-- The search for agents (node/src/search). Embedding: EmbeddingService; Hybrid: HybridSearch.
pub mod Vectors
pub mod Embedding
pub mod Hybrid
mod Tests
