-- ===== src/Service.antt =====
-- internal/service: what the HTTP handlers, the CLI and the scheduler call.
pub mod Scope
pub mod Loading
pub mod Crl
pub mod Certificates
pub mod Ocsp
pub mod Acme
pub mod Issue
pub mod TwoFactor
pub mod Auth
pub mod OAuth
pub mod Authorities
pub mod Issuance
mod Tests
