-- ===== src/Tests.antt =====
-- Runs of the model on small inputs, and the results applied to concrete inputs.
mod Message
mod Compiler
mod Addresses
mod Modules
mod Parsing
mod Tools
mod Generator
mod Messages
