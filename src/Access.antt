-- ===== src/Access.antt =====
-- Who may call and how secrets are kept: apps/api/src/auth, crypto.util.ts and
-- slack/slack.signature.ts. Node's crypto functions are parameters.
pub mod Hex
pub mod Secrets
pub mod Keys
pub mod Guard
pub mod Signature
mod Tests
