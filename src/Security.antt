-- ===== src/Security.antt =====
-- security/auth.py and security/acl.py: who a client is, and which commands it may give.
pub mod Auth
pub mod Acl
pub mod Laws
pub mod Examples
