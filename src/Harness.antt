-- ===== src/Harness.antt =====
-- The test harnesses under cmd: configuration-test-harness, certificates-test-harness and
-- tls-config-factory-test-harness.
pub mod Client
pub mod Start
pub mod Tls
pub mod Pems
