-- ===== src/Examples.antt =====
-- Runs of the theorems at concrete inputs.
mod Data
mod Tasks
mod NodePools
mod Codecs
mod Tables
mod Processing
mod Messages
mod Watches
mod Diffs
mod Running
mod Balancing
mod Reconciling
mod Requests
mod Warnings
