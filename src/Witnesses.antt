-- ===== src/Witnesses.antt =====
-- Runs of the theorems on concrete inputs.
mod Messages
mod Network
mod Threads
mod Radar
mod Delivery
mod Navigation
mod Timing
mod Older
mod Nodes
mod Scans
mod Clients
