-- ===== src/Domain.antt =====
-- The entities of backend/internal/domain: string types, structs and the small rules on them.
pub mod Kinds
pub mod Values
pub mod Records
pub mod Costs
pub mod Journeys
pub mod Content
pub mod Samples
pub mod Users
pub mod Roles
pub mod Checks
pub mod Trimmed
