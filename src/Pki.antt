-- ===== src/Pki.antt =====
-- internal/pki: names and the constraints on them. Its calls of crypto/x509 are not modelled.
pub mod Constraints
pub mod San
pub mod Profile
pub mod Subject
pub mod Keys
pub mod Sign
pub mod Ca
mod Tests
