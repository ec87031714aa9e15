-- ===== src/Agent.antt =====
-- The agent (agent/internal): its requests for files, and its connection.
pub mod FileBrowser
pub mod Access
pub mod Dropzone
pub mod Reconnect
pub mod Terminal
pub mod LogTailer
