-- ===== src/Client.antt =====
-- client/: request middlewares, iterators and resumable downloads of the client.
pub mod Download
pub mod FloodWait
pub mod MessageIter
pub mod Metrics
pub mod Retry
pub mod RateLimit
pub mod RequestIter
pub mod Upload
