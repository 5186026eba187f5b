-- ===== src/Tests.antt =====
-- Runs on small inputs, and the properties applied at inputs that meet their hypotheses.
pub mod Memory
pub mod Formatted
pub mod MachineInMemory
mod FileSystemRuns
pub mod PagerRuns
mod PagerWitnesses
mod Witnesses
