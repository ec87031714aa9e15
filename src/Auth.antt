-- ===== src/Auth.antt =====
-- hub/internal/auth: passwords, one-time codes and revoked tokens.
pub mod Totp
pub mod Blacklist
