-- ===== src/Cli/Status.antt =====
-- cmd/cli/status.go, and the requests to the service of cmd/cli/helper.go.
pub mod Types
pub mod Tables
pub mod Commands
pub mod Encoding
pub mod Wire
pub mod Served
