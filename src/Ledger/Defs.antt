-- ===== src/Ledger/Defs.antt =====
-- The ledger read as sums and counts, and the three invariants on the tables.
use micro_manus_services.Base.{
  ℕ, suc, ◌≡◌, Bool, true, false, ◌&&◌, List, [], ◌∷◌, map, ◌==◌, if◌then◌else◌, any, All,
}
use micro_manus_services.Base.Int.{ℤ, pos, ◌+ℤ◌, ◌≤ℤ◌}
use micro_manus_services.Db.{UserRow, RunRow, LedgerRow, Reason, Ref, RunStatus, is_running}
use micro_manus_services.Db.Statements.{has_user, runs_in}

-- The sum of a user's ledger deltas.
abbrev pub balance : ℕ → List LedgerRow → ℤ
balance id [] = pos 0
balance id (e ∷ es) = if e.user_id == id then e.delta +ℤ balance id es else balance id es

abbrev pub is_debit : Reason → Bool
is_debit Reason.debit = true
is_debit _ = false

abbrev pub is_refund : Reason → Bool
is_refund Reason.refund = true
is_refund _ = false

abbrev pub refers_to : ℕ → Ref → Bool
refers_to id (Ref.ref_run run) = run == id
refers_to id _ = false

-- How many ledger rows charge, and refund, a run.
abbrev pub debits : ℕ → List LedgerRow → ℕ
debits id [] = 0
debits id (e ∷ es) =
    if is_debit e.reason && refers_to id e.ref_id then suc (debits id es) else debits id es

abbrev pub refunds : ℕ → List LedgerRow → ℕ
refunds id [] = 0
refunds id (e ∷ es) =
    if is_refund e.reason && refers_to id e.ref_id then suc (refunds id es) else refunds id es

abbrev pub contains : ℕ → List ℕ → Bool
contains id ids = any (λ x. x == id) ids

abbrev pub NoDup : List ℕ → Type 0
NoDup [] = Unit
NoDup (x ∷ xs) = (contains x xs ≡ false) × NoDup xs

abbrev pub user_ids : List UserRow → List ℕ
user_ids = map (λ u. u.id)

abbrev pub run_ids : List RunRow → List ℕ
run_ids = map (λ r. r.id)

-- Every balance is the sum of its ledger and is not negative; keys are unique, and each ledger row
-- belongs to a user.
pub record IsBalanced (us : List UserRow) (es : List LedgerRow) : Type 0 where
  pub keys : NoDup (user_ids us)
  pub sums : All (λ u. u.credits ≡ balance u.id es) us
  pub nonneg : All (λ u. pos 0 ≤ℤ u.credits) us
  pub owned : All (λ e. has_user e.user_id us ≡ true) es

-- The refunds that a run in a given status has had.
abbrev pub due : RunStatus → ℕ
due RunStatus.failed = 1
due _ = 0

-- A run has been charged once, and refunded once if it has failed and never otherwise.
abbrev pub Charged : List LedgerRow → RunRow → Type 0
Charged es r = (debits r.id es ≡ 1) × (refunds r.id es ≡ due r.status)

pub record IsCharged (rs : List RunRow) (es : List LedgerRow) : Type 0 where
  pub keys : NoDup (run_ids rs)
  pub charged : All (Charged es) rs

-- No two running runs share a thread.
abbrev pub IsExclusive : List RunRow → Type 0
IsExclusive [] = Unit
IsExclusive (r ∷ rs) =
    (is_running r.status ≡ true → any (runs_in r.thread_id) rs ≡ false) × IsExclusive rs
