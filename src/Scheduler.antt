-- ===== src/Scheduler.antt =====
-- pkg/scheduler: from a VM to the affinity of its processes.
pub mod Mask
pub mod CpuSet
pub mod Processes
pub mod Affinity
