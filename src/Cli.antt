-- ===== src/Cli.antt =====
-- cmd/cli: the commands that manage the hook of the VMs, and those that place running VMs anew.
pub mod Session
pub mod Hookscript
pub mod Reassign
pub mod Ps
pub mod Status
pub mod CpuInfoCmd
