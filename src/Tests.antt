-- ===== src/Tests.antt =====
-- Concrete surroundings, and the theorems at them.
mod Data
mod Reports
mod Steps
mod Server
mod Threads
mod Nodes
mod Registering
mod Chain
mod Tools
mod Named
mod Owners
mod Composed
mod Auction
mod Reading
mod Governance
mod Launching
