-- ===== src/Tests.antt =====
-- Examples: the theorems at concrete inputs, and runs of the definitions.
mod Memory
mod Counts
mod Databases
mod Runs
mod Messages
mod Commands
mod Pushes
mod Tokens
mod Plans
mod Names
mod Timeouts
