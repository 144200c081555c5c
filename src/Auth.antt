-- ===== src/Auth.antt =====
-- src/auth: sign-in with the healing of duplicate accounts, and refresh sessions.
pub mod Accounts
pub mod Login
pub mod Merge
pub mod Rotation
pub mod Sessions
pub mod Cookies
pub mod SignIn
pub mod Tokens
pub mod Firebase
pub mod Verified
