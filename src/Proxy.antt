-- ===== src/Proxy.antt =====
-- The proxy of apps/api/src/proxy: what is sent to an organisation's upstream, and what is logged.
pub mod Headers
pub mod Forward
pub mod Intercept
pub mod Call
pub mod Controller
pub mod Stream
mod Tests
