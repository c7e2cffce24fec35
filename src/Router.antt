-- ===== src/Router.antt =====
-- crates/ferroly/src/genai/router: choosing a model for a task and calling it with fallback.
pub mod Data
pub mod Ranking
pub mod Execute
pub mod Resolve
