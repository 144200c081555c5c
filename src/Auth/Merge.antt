-- ===== src/Auth/Merge.antt =====
-- Folding one account into another (`mergeUsers` of src/auth/auth.service.ts) and the invariant of
-- the database.
use micro_manus_services.Base.{
  ℕ, ⊤, ◌≡◌, refl, ap, ◌≢◌, inl, inr, Bool, true, false, not, Option, none, some, List, [], ◌∷◌,
  map, arith, ◌==◌, Bool-cases, keep, find, any, update_where, All,
}
use micro_manus_services.Base.Int.{ℤ, pos, ◌+ℤ◌, ◌≤ℤ◌, int_laws}
use micro_manus_services.Db.{Db, Result, ok, err, UserRow, RunRow, LedgerRow}
use micro_manus_services.Db.Statements.{
  is_user, has_user, add_to_credits, users_error, update_credits_cases, runs_in,
}
use micro_manus_services.Ledger.{
  balance, debits, refunds, contains, NoDup, user_ids, run_ids, IsCharged, Charged, IsExclusive,
}
use micro_manus_services.Ledger.Balance.{users_error-nonneg}
use micro_manus_services.Ledger.Sound.{IsSound}
use micro_manus_services.Auth.Login.{move_run, move_ledger, reassign, delete_user, merge_users}

abbrev stays : ℕ → UserRow → Bool
stays loser u = not (u.id == loser)

module _ (winner loser : ℕ) where
  abbrev moved_ledger : List LedgerRow → List LedgerRow
  moved_ledger = map (move_ledger winner loser)

  abbrev moved_runs : List RunRow → List RunRow
  moved_runs = map (move_run winner loser)

  -- The winner's ledger is the sum of both.
  balance_winner :
      (es : List LedgerRow)
      → winner ≢ loser
      → balance winner (moved_ledger es) ≡ balance winner es +ℤ balance loser es
  balance_winner [] ne = omega int_laws
  balance_winner (e ∷ es) ne = grind (int_laws, balance_winner es ne)

  balance_third :
      (id : ℕ) (es : List LedgerRow)
      → id ≢ winner
      → id ≢ loser
      → balance id (moved_ledger es) ≡ balance id es
  balance_third id [] nw nl = refl
  balance_third id (e ∷ es) nw nl = grind (int_laws, balance_third id es nw nl)

  debits-moved : (id : ℕ) (es : List LedgerRow) → debits id (moved_ledger es) ≡ debits id es
  debits-moved id [] = refl
  debits-moved id (e ∷ es) = ground (arith, debits-moved id es)

  refunds-moved : (id : ℕ) (es : List LedgerRow) → refunds id (moved_ledger es) ≡ refunds id es
  refunds-moved id [] = refl
  refunds-moved id (e ∷ es) = ground (arith, refunds-moved id es)

  run_ids-moved : (rs : List RunRow) → run_ids (moved_runs rs) ≡ run_ids rs
  run_ids-moved [] = refl
  run_ids-moved (r ∷ rs) = ap (λ ids. r.id ∷ ids) (run_ids-moved rs)

  moved-Charged :
      (rs : List RunRow) (es : List LedgerRow)
      → All (Charged es) rs
      → All (Charged (moved_ledger es)) (moved_runs rs)
  moved-Charged [] es h = tt
  moved-Charged (r ∷ rs) es h =
      (ground (arith, debits-moved r.id es, refunds-moved r.id es), moved-Charged rs es h.1)

  moved-IsCharged :
      (rs : List RunRow) (es : List LedgerRow)
      → IsCharged rs es
      → IsCharged (moved_runs rs) (moved_ledger es)
  moved-IsCharged rs es v = record {
    keys = rw (run_ids-moved rs) v.keys;
    charged = moved-Charged rs es v.charged;
  }

  runs_in-moved :
      (thread : ℕ) (rs : List RunRow)
      → any (runs_in thread) (moved_runs rs) ≡ any (runs_in thread) rs
  runs_in-moved thread [] = refl
  runs_in-moved thread (r ∷ rs) = ground (arith, runs_in-moved thread rs)

  moved-IsExclusive : (rs : List RunRow) → IsExclusive rs → IsExclusive (moved_runs rs)
  moved-IsExclusive [] h = tt
  moved-IsExclusive (r ∷ rs) h =
      (λ alive. ground (arith, runs_in-moved r.thread_id rs), moved-IsExclusive rs h.1)

  -- The users after the merge.
  abbrev merged_users : ℤ → List UserRow → List UserRow
  merged_users c us = keep (stays loser) (update_where (is_user winner) (add_to_credits c) us)

  contains-merged :
      (id : ℕ) (c : ℤ) (us : List UserRow)
      → contains id (user_ids us) ≡ false
      → contains id (user_ids (merged_users c us)) ≡ false
  contains-merged id c [] h = refl
  contains-merged id c (u ∷ us) h = ground (arith, contains-merged id c us)

  keys-merged :
      (c : ℤ) (us : List UserRow) → NoDup (user_ids us) → NoDup (user_ids (merged_users c us))
  keys-merged c [] h = tt
  keys-merged c (u ∷ us) h = ground (arith, contains-merged u.id c us, keys-merged c us h.1)

  sums-merged :
      (c : ℤ) (us : List UserRow) (es : List LedgerRow)
      → winner ≢ loser
      → c ≡ balance loser es
      → All (λ u. u.credits ≡ balance u.id es) us
      → All (λ u. u.credits ≡ balance u.id (moved_ledger es)) (merged_users c us)
  sums-merged c [] es ne q h = tt
  sums-merged c (u ∷ us) es ne q h =
      ground (arith, sums-merged c us es ne q h.1, balance_winner es ne, balance_third u.id es)

  nonneg-keep :
      (us : List UserRow)
      → All (λ u. pos 0 ≤ℤ u.credits) us
      → All (λ u. pos 0 ≤ℤ u.credits) (keep (stays loser) us)
  nonneg-keep [] h = tt
  nonneg-keep (u ∷ us) h = ground (arith, nonneg-keep us h.1)

  has_user-merged :
      (id : ℕ) (c : ℤ) (us : List UserRow)
      → id ≢ loser
      → has_user id us ≡ true
      → has_user id (merged_users c us) ≡ true
  has_user-merged id c [] ne h = cc
  has_user-merged id c (u ∷ us) ne h = ground (arith, has_user-merged id c us ne)

  owned-merged :
      (c : ℤ) (us : List UserRow) (es : List LedgerRow)
      → winner ≢ loser
      → has_user winner us ≡ true
      → All (λ e. has_user e.user_id us ≡ true) es
      → All (λ e. has_user e.user_id (merged_users c us) ≡ true) (moved_ledger es)
  owned-merged c us [] ne w h = tt
  owned-merged c us (e ∷ es) ne w h = (
    ground (arith, has_user-merged winner c us ne w, has_user-merged e.user_id c us),
    owned-merged c us es ne w h.1,
  )

  -- The row that is found is the row of that key, and its balance is the ledger's.
  find-credits :
      (us : List UserRow) (es : List LedgerRow) (u : UserRow)
      → find (is_user loser) us ≡ some u
      → All (λ u. u.credits ≡ balance u.id es) us
      → u.credits ≡ balance loser es
  find-credits [] es u h s = absurd cc
  find-credits (x ∷ us) es u h s = elim (Bool-cases (is_user loser x)) [
    | inl hit ↦ found hit
    | inr miss ↦ find-credits us es u (rw miss at h) s.1
  ]
    where
      found : is_user loser x ≡ true → u.credits ≡ balance loser es
      found hit = ground (arith, s.0)

  merged-IsSound :
      (u : UserRow) (d : Db)
      → winner ≢ loser
      → has_user winner d.users ≡ true
      → find (is_user loser) d.users ≡ some u
      → users_error (update_where (is_user winner) (add_to_credits u.credits) d.users) ≡ none
      → IsSound d
      → IsSound (
          delete_user loser (record (reassign winner loser d) {
            users = update_where (is_user winner) (add_to_credits u.credits) d.users;
          }))
  merged-IsSound u d ne w found fits v = record {
    balanced = record {
      keys = keys-merged u.credits d.users v.balanced.keys;
      sums =
          sums-merged u.credits d.users d.credit_ledger ne
            (find-credits d.users d.credit_ledger u found v.balanced.sums) v.balanced.sums;
      nonneg = nonneg-keep _ (users_error-nonneg _ fits);
      owned = owned-merged u.credits d.users d.credit_ledger ne w v.balanced.owned;
    };
    charged = moved-IsCharged d.runs d.credit_ledger v.charged;
    exclusive = moved-IsExclusive d.runs v.exclusive;
  }

-- The invariant, where a program over the database returns.
abbrev pub SoundIfOk : {A : Type 0} → Result A × Db → Type 0
SoundIfOk (ok a, d) = IsSound d
SoundIfOk (err x, d) = ⊤

pub merge_users-SoundIfOk :
    (loser winner : ℕ) (d : Db)
    → winner ≢ loser
    → has_user winner d.users ≡ true
    → IsSound d
    → SoundIfOk (merge_users loser winner d)
unfolding merge_users
merge_users-SoundIfOk loser winner d ne w v = by_loser (find (is_user loser) d.users) refl
  where
    by_loser :
        (o : Option UserRow)
        → find (is_user loser) d.users ≡ o
        → SoundIfOk (merge_users loser winner d)
    by_loser none e = rw e tt
    by_loser (some u) e =
        elim (update_credits_cases (is_user winner) u.credits (reassign winner loser d)) [
          | inl (x, f) ↦ rw e (rw f tt)
          | inr (fits, f) ↦ rw e (rw f (merged-IsSound winner loser u d ne w e fits v))
        ]
