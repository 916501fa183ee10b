-- ===== src/Domain.antt =====
-- internal/domain: the entities, and the rules that stand beside them. The modules below are passed
-- on one by one.
pub mod Time
pub mod Entities
pub mod Client
pub mod PasswordPolicy
pub mod Paged
