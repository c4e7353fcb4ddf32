-- ===== src/Policy.antt =====
-- The policy engine of apps/api/src/policy: rules, the matchers and the limiter that they use.
pub mod Reasoning
pub mod RateLimiter
pub mod PathMatch
pub mod Rule
pub mod Baseline
pub mod Engine
pub mod Service
mod Tests
