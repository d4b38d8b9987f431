-- ===== src/Cli/Ps.antt =====
-- cmd/cli/ps.go: the command that shows where the processes of VMs may run and do run.
pub mod Types
pub mod Settings
pub mod Process
pub mod Children
pub mod Rows
pub mod Results
pub mod Printing
