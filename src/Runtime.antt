-- ===== src/Runtime.antt =====
-- simulator_app/runtime.py: the start, the loop and the stop of the service.
pub mod Tick
pub mod Start
pub mod Numbering
pub mod Degraded
pub mod Fresh
pub mod Alive
pub mod Stop
mod Tests
