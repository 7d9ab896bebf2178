-- ===== src/Tests.antt =====
-- Runs of the definitions at concrete inputs, and the theorems applied to them.
mod Fixtures
mod Translation
mod Config
mod Secrets
mod Clients
mod Queues
mod Synchronizer
mod Observer
mod Program
mod Harness
mod System
mod Crew
mod Upstreams
