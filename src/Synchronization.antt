-- ===== src/Synchronization.antt =====
-- internal/synchronization: fanning changes out to the NGINX Plus hosts, queueing them, and sending
-- them with retries.
pub mod Random
pub mod World
pub mod Queueing
pub mod Delivery
pub mod Worker
pub mod Retries
pub mod Survival
pub mod Drain
pub mod Load
pub mod Upstreams
