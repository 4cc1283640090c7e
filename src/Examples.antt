-- ===== src/Examples.antt =====
-- Runs of the kernel's functions at concrete states.
pub mod State
mod Running
mod Starting
mod Isolating
mod Scheduling
mod Lists
mod Calling
mod Data
