-- ===== src/Generator.antt =====
-- The server generator of apps/api/src/generator: endpoints are classified, and those that are judged
-- safe make up the external server.
pub mod Heuristic
pub mod Classifier
pub mod Table
pub mod Build
mod Tests
