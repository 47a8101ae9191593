-- ===== src/Examples.antt =====
-- Concrete runs of the model, and the theorems at concrete inputs.
pub mod Data
mod Files
mod Limits
mod Uploads
mod Sharing
mod Documents
mod Access
mod Ranges
mod Jobs
mod Requests
mod Routes
mod Queueing
mod Stores
mod Settings
mod Tokens
mod Startup
mod Mocked
