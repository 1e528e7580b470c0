-- ===== src/Http.antt =====
-- The program's HTTP requests: the waits of Retry-After, the download of a zip in
-- cmd/veloria/index.go, and the API client of internal/repo/api_client.go.
pub mod Delay
pub mod Download
pub mod Client
