-- ===== src/Examples.antt =====
-- Tests, and the theorems at inputs where their hypotheses hold.
mod Grepping
mod Managing
mod Storing
mod Fetching
mod Searching
mod Naming
mod Agents
mod Indexing
mod Loading
mod Updating
mod Caching
mod Paging
mod Showing
mod Resuming
