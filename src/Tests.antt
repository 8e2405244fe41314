-- ===== src/Tests.antt =====
-- Runs of the model on small inputs, and each theorem at an input where its hypotheses hold.
mod Data
mod Databases
mod Keys
mod Groups
mod Server
mod Control
mod Handshake
mod Messages
mod Peering
mod Backend
mod System
mod Befriending
