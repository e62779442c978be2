-- ===== src/Uploads.antt =====
-- Upload sessions: app/services/videos.py.
pub mod Filename
pub mod Create
pub mod Bytes
pub mod Parts
pub mod Recovery
pub mod Sweep
pub mod Cancel
pub mod Finalize
pub mod Recover
pub mod Begin
pub mod Verify
pub mod Complete
pub mod Attempts
mod Tests
