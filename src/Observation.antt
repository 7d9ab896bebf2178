-- ===== src/Observation.antt =====
-- internal/observation: the watcher, which makes Events of an informer's callbacks, and the handler,
-- which has them translated and hands the outcome to the synchronizer.
pub mod Handler
pub mod Watcher
