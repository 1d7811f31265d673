-- ===== src/Kernel.antt =====
-- compilableworld/kernel.py and models.py: the runtime kernel.
pub mod Value
pub mod State
pub mod Models
pub mod Scheduler
pub mod Behavior
pub mod World
pub mod Runtime
pub mod Conditions
pub mod Execution
pub mod Admission
pub mod Child
pub mod Checkpoint
pub mod Control
pub mod Advance
pub mod EntityTransaction
