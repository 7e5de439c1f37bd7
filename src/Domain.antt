-- ===== src/Domain.antt =====
pub mod Entities
pub mod Policy
