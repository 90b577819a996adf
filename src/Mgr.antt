-- ===== src/Mgr.antt =====
-- The multi-buffer manager of lib/include/mb_mgr_code.h.
pub mod Kernels
pub mod State
pub mod Steps
pub mod CipherCalls
pub mod Cipher
pub mod Hash
pub mod Jobs
pub mod Contract
pub mod Home
pub mod Effect
pub mod StepLaws
pub mod Calls
pub mod Dispatch
pub mod Sound
pub mod Slots
pub mod Progress
pub mod Resubmit
pub mod FlushOnce
pub mod Liveness
pub mod Api
pub mod Ring
pub mod Enter
pub mod Start
pub mod Take
pub mod Fifo
pub mod Drain
pub mod Trace
pub mod OneLane
mod Tests
