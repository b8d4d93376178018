-- ===== src/Tests.antt =====
-- Runs of the code on small inputs, and the headline theorems applied to concrete data.
pub mod Fixture
pub mod Table
pub mod Environ
pub mod Export
pub mod Jobs
pub mod Buffers
pub mod Documents
pub mod Arithmetic
pub mod Images
pub mod Machines
pub mod Signals
pub mod Messages
pub mod Commands
