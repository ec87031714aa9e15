-- ===== src/Server.antt =====
-- hub/internal/server: what stands between a request and its handler.
pub mod RateLimiter
pub mod LogSlots
pub mod Files
pub mod Gate
pub mod Csrf
pub mod Permissions
pub mod Upload
pub mod Terminal
pub mod Login
pub mod Servers
