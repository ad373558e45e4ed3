-- ===== src/Tests.antt =====
-- Runs of the model on small inputs.
mod Data
mod Components
mod Messages
mod Freshness
mod Fetching
mod Disk
mod Dumping
mod Stored
mod Starting
mod Parts
mod Requesting
mod Running
mod Listening
mod Interleaving
