-- ===== src/Turn.antt =====
-- A turn of a conversation: src/brain/debounce.ts, src/brain/policy.ts, the cursor and the claim of
-- src/db/repos.ts, and processConversation of src/brain/worker.ts.
pub mod Debounce
pub mod Cursor
pub mod Policy
pub mod Settle
pub mod Worker
pub mod Silence
pub mod Stop
pub mod Sweeping
mod Tests
