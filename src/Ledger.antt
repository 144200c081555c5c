-- ===== src/Ledger.antt =====
-- What the credit ledger says: the balance of a user, and the charges and refunds of a run. The
-- services keep `users.credits` and `runs.status` in step with it (src/billing, src/agent,
-- src/admin, src/auth); the children prove the facts on tables that those proofs share.
pub mod Balance
pub mod Charges
pub mod Exclusive
pub mod Sound
pub mod Keeps
mod Defs
pub use Defs.*
