-- ===== src/CpuInfo.antt =====
-- pkg/cpuinfo: the core ranking and the choice of CPUs for a VM.
pub mod Types
pub mod Floats
pub mod Topology
pub mod Selection
pub mod Update
pub mod Summary
pub mod Link
pub mod History
pub mod Contract
