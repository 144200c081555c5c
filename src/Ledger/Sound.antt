-- ===== src/Ledger/Sound.antt =====
-- The invariant of the whole database, and the two writes that every grant of credits makes.
use micro_manus_services.Base.{
  ◌≡◌, ◌⊎◌, inl, inr, true, none, List, ◌∷◌, map, keep, arith, update_where, Bool-cases,
  Option-cases,
}
use micro_manus_services.Base.Int.{ℤ, ◌+ℤ◌}
use micro_manus_services.Db.{
  Db, Query, ok, err, Error, pg, SqlState, UserRow, LedgerRow, ◌>>=◌, ◌>>◌, pure,
}
use micro_manus_services.Db.Statements.{
  is_user, add_to_credits, users_error, update_credits, insert_ledger, has_user,
}
use micro_manus_services.Ledger.Balance.{credit-IsBalanced, has_user-update}
use micro_manus_services.Ledger.Charges.{IsNeutral, neutral-IsCharged}
use micro_manus_services.Ledger.Defs.{IsBalanced, IsCharged, IsExclusive}

pub record IsSound (d : Db) : Type 0 where
  pub balanced : IsBalanced d.users d.credit_ledger
  pub charged : IsCharged d.runs d.credit_ledger
  pub exclusive : IsExclusive d.runs

-- `UPDATE users SET credits = credits + delta …` and the ledger row that records it.
unfoldable pub grant : LedgerRow → Query (List ℤ)
grant e = do
  returned ← update_credits (is_user e.user_id) e.delta
  insert_ledger e.user_id e.delta e.reason e.ref_id
  pure returned

-- The database after both writes.
abbrev pub credited : LedgerRow → Db → Db
credited e d = record d {
  users = update_where (is_user e.user_id) (add_to_credits e.delta) d.users;
  credit_ledger = e ∷ d.credit_ledger;
}

-- What the constraints have checked when both writes are made.
pub record IsAccepted (e : LedgerRow) (d : Db) : Type 0 where
  pub fits : users_error (update_where (is_user e.user_id) (add_to_credits e.delta) d.users) ≡ none
  pub known : has_user e.user_id d.users ≡ true

-- The two writes are made and accepted, or a constraint rejects one of them.
pub grant_cases :
    (e : LedgerRow) (d : Db)
    → ((x : Error) × (d' : Db) × (grant e d ≡ (err x, d')))
      ⊎ ((r : List ℤ) × IsAccepted e d × (grant e d ≡ (ok r, credited e d)))
unfolding grant update_credits insert_ledger
grant_cases e d = elim (Option-cases (users_error granted)) [
  | inr (x, bad) ↦ inl (pg x, d, ground arith)
  | inl fits ↦ elim (Bool-cases (has_user e.user_id granted)) [
    | inr absent ↦
        inl (pg SqlState.foreign_key_violation, record d { users = granted }, ground arith)
    | inl known ↦ inr (
      map (λ u. u.credits +ℤ e.delta) (keep (is_user e.user_id) d.users),
      record {
        fits = fits;
        known = ground (arith, has_user-update e.user_id (is_user e.user_id) e.delta d.users);
      },
      ground arith,
    )
  ]
]
  where
    granted : List UserRow
    granted = update_where (is_user e.user_id) (add_to_credits e.delta) d.users

-- Both writes together keep the invariant.
pub credited-IsSound :
    (e : LedgerRow) (d : Db) → IsNeutral e → IsAccepted e d → IsSound d → IsSound (credited e d)
credited-IsSound e d n a v = record {
  balanced = credit-IsBalanced e d.users d.credit_ledger v.balanced a.known a.fits;
  charged = neutral-IsCharged e d.runs d.credit_ledger n v.charged;
  exclusive = v.exclusive;
}
