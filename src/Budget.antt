-- ===== src/Budget.antt =====
-- backend/internal/domain/budget.go: the money side of a document.
-- The entries are in the child `Entries`, `BuildBudget` in `Build`; the others prove.
pub mod Entries
pub mod Build
pub mod Totals
pub mod Planned
pub mod DayCosts
mod Tests
