-- ===== src/Admin/Reconciled.antt =====
-- The credits in the statistics of src/admin/admin.controller.ts against the balances of the users.
use micro_manus_services.Base.{
  ℕ, ◌+◌, ◌≡◌, refl, sym, ap, ◌∙◌, true, false, List, [], ◌∷◌, arith, ◌==◌, if◌then◌else◌, All,
}
use micro_manus_services.Base.Int.{pos, pos_part, neg_part, ◌≤ℤ◌, int_laws}
use micro_manus_services.Db.{Db, UserRow, LedgerRow}
use micro_manus_services.Db.Statements.{has_user}
use micro_manus_services.Ledger.{balance, NoDup, user_ids, contains}
use micro_manus_services.Ledger.Sound.{IsSound}
use micro_manus_services.Admin.Stats.{sum_of, credits_granted, credits_spent, admin_stats}

-- A weight summed over the rows of one user.
share : (LedgerRow → ℕ) → ℕ → List LedgerRow → ℕ
share w id [] = 0
share w id (e ∷ es) = if e.user_id == id then w e + share w id es else share w id es

-- A weight that one user has.
only : ℕ → ℕ → UserRow → ℕ
only id n u = if id == u.id then n else 0

balance_parts :
    (id : ℕ) (es : List LedgerRow)
    → pos_part (balance id es) + share (λ e. neg_part e.delta) id es
      ≡ neg_part (balance id es) + share (λ e. pos_part e.delta) id es
unfolding share
balance_parts id [] = refl
balance_parts id (e ∷ es) = grind (int_laws, balance_parts id es)

sum-only_none :
    (id n : ℕ) (us : List UserRow) → contains id (user_ids us) ≡ false → sum_of (only id n) us ≡ 0
unfolding sum_of only
sum-only_none id n [] h = refl
sum-only_none id n (u ∷ us) h = ground (arith, sum-only_none id n us)

sum-only :
    (id n : ℕ) (us : List UserRow)
    → has_user id us ≡ true
    → NoDup (user_ids us)
    → sum_of (only id n) us ≡ n
unfolding sum_of only
sum-only id n [] h k = cc
sum-only id n (u ∷ us) h k = ground (arith, k.0, k.1, sum-only_none id n us, sum-only id n us)

sum-share_cons :
    (w : LedgerRow → ℕ) (e : LedgerRow) (es : List LedgerRow) (us : List UserRow)
    → sum_of (λ u. share w u.id (e ∷ es)) us
      ≡ sum_of (only e.user_id (w e)) us + sum_of (λ u. share w u.id es) us
unfolding sum_of share only
sum-share_cons w e es [] = refl
sum-share_cons w e es (u ∷ us) = ground (arith, sum-share_cons w e es us)

sum-share_none : (w : LedgerRow → ℕ) (us : List UserRow) → sum_of (λ u. share w u.id []) us ≡ 0
unfolding sum_of share
sum-share_none w [] = refl
sum-share_none w (u ∷ us) = ground (arith, sum-share_none w us)

-- Each row is of one user.
sum-share :
    (w : LedgerRow → ℕ) (us : List UserRow) (es : List LedgerRow)
    → NoDup (user_ids us)
    → All (λ e. has_user e.user_id us ≡ true) es
    → sum_of (λ u. share w u.id es) us ≡ sum_of w es
unfolding sum_of
sum-share w us [] k h = sum-share_none w us
sum-share w us (e ∷ es) k h =
    sum-share_cons w e es us
    ∙ rw (sum-only e.user_id (w e) us h.0 k) (rw (sum-share w us es k h.1) refl)

balances :
    (us : List UserRow) (es : List LedgerRow)
    → All (λ u. u.credits ≡ balance u.id es) us
    → All (λ u. pos 0 ≤ℤ u.credits) us
    → sum_of (λ u. share (λ e. pos_part e.delta) u.id es) us
      ≡ sum_of (λ u. share (λ e. neg_part e.delta) u.id es) us + sum_of (λ u. pos_part u.credits) us
unfolding sum_of
balances [] es h k = refl
balances (u ∷ us) es h k = grind (arith, h.0, k.0, balance_parts u.id es, balances us es h.1 k.1)

-- Where the invariant holds, the credits granted are the credits spent and those that the users
-- still have.
pub admin_stats_reconciled :
    (d : Db)
    → IsSound d
    → (admin_stats d).credits_granted
      ≡ (admin_stats d).credits_spent + sum_of (λ u. pos_part u.credits) d.users
unfolding admin_stats credits_granted credits_spent
admin_stats_reconciled d v =
    sym (sum-share (λ e. pos_part e.delta) d.users d.credit_ledger v.balanced.keys v.balanced.owned)
    ∙ balances d.users d.credit_ledger v.balanced.sums v.balanced.nonneg
    ∙ ap (λ n. n + sum_of (λ u. pos_part u.credits) d.users)
        (sum-share (λ e. neg_part e.delta) d.users d.credit_ledger v.balanced.keys v.balanced.owned)
