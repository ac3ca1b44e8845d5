-- ===== src/Staff.antt =====
-- The staff side: who is on the roster and who gets a card, the nudger of overdue tasks, and the
-- commands that staff type.
pub mod Roster
pub mod Sla
pub mod Parsing
pub mod Commands
mod Tests
mod CommandTests
