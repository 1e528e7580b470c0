-- ===== src/Mcp.antt =====
-- The tools for agents: internal/mcp.
pub mod Tools
pub mod ReadFile
pub mod GrepFile
pub mod Persist
pub mod Numbers
pub mod Pages
pub mod Handlers
pub mod Uri
