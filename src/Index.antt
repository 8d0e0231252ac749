-- ===== src/Index.antt =====
-- Indexing of the media tree: the queue of jobs, which the API and the workers share
-- (go_api/cmd/api/handlers.go and index_worker/cmd/index-worker/main.go), and the image table
-- that a scan brings up to date (index_worker/cmd/index-worker/main.go).
pub mod Jobs
pub mod Images
pub mod Walk
pub mod Requests
mod Tests
