-- ===== src/Tests.antt =====
-- Runs of the definitions at small inputs, and the theorems at concrete states.
pub mod Trees
pub mod Sockets
pub mod Calls
pub mod Files
pub mod Launches
pub mod Rates
pub mod Routes
pub mod Apis
