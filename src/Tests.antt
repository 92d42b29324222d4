-- ===== src/Tests.antt =====
-- Concrete inputs: the theorems at values where their hypotheses hold, and runs of the program.
pub mod Data
mod Store
mod Sales
mod Stock
mod Relay
mod Cache
mod Races
mod CallGroup
mod Loop
mod Rpc
mod Http
mod Pg
mod Commands
