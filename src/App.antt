-- ===== src/App.antt =====
-- ui/App.tsx of ui/desktop/src/renderer: how the application's shell refreshes what it shows, what it
-- records in its history, and when it resumes torrents by itself.
pub mod Refresh
pub mod Scheduled
pub mod History
pub mod Completion
pub mod Resume
mod Tests
