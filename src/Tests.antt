-- ===== src/Tests.antt =====
-- Runs at concrete inputs, module by module.
mod Samples
mod Nodes
mod Heights
mod Mixed
mod Serving
mod Clients
mod Programs
mod Chains
mod Services
mod Lives
mod Wholes
