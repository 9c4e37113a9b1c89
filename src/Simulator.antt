-- ===== src/Simulator.antt =====
-- The device simulator of miio/devtools/simulators/miotsimulator.py.
pub mod Property
pub mod State
pub mod View
pub mod Refinement
pub mod Actions
pub mod Miio
pub mod SetGet
pub mod Runs
pub mod Bounds
pub mod Invariant
