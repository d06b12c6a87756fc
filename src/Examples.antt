-- ===== src/Examples.antt =====
-- Runs of the theorems on concrete inputs, over small concrete instances of the interfaces.
pub mod Coding
pub mod Toy
pub mod Data
mod Cards
mod Verification
mod Judging
mod Store
mod Restarts
pub mod Running
mod Handlers
mod Starting
mod Tools
mod Filter
mod Racing
