-- ===== src/Agent/Ending.antt =====
-- The two transactions that end a run (src/agent/agent.processor.ts), branch by branch.
use micro_manus_services.Base.{
  ℕ, ◌≡◌, refl, ◌≢◌, ◌⊎◌, inl, inr, Bool, false, List, [], ◌∷◌, arith, Option-cases, Text, take,
  keep, any, update_where, update_where-none,
}
use micro_manus_services.Db.{Db, ok, err, Error, RunRow, tx, ThreadRow, pg, SqlState}
use micro_manus_services.Db.Statements.{insert_message_cases}
use micro_manus_services.Ledger.Balance.{credit-IsBalanced}
use micro_manus_services.Ledger.Charges.{
  is_live, set_failed, fail-IsCharged, set_done, done-IsCharged,
}
use micro_manus_services.Ledger.Exclusive.{Ends, end-IsExclusive}
use micro_manus_services.Ledger.Sound.{IsSound, IsAccepted, grant_cases, credited}
use micro_manus_services.Agent.Finalize.{
  fail_tx, refund_if, refund_row, complete_tx, answer, touch_rows, first_question, touch_thread,
}

-- Whether a run is still running.
abbrev pub live : ℕ → Db → Bool
live id d = any (is_live id) d.runs

abbrev with_runs : ℕ → (RunRow → RunRow) → Db → Db
with_runs id f d = record d { runs = update_where (is_live id) f d.runs }

live-keep : (id : ℕ) (rs : List RunRow) → keep (is_live id) rs ≡ [] → any (is_live id) rs ≡ false
live-keep id [] h = refl
live-keep id (r ∷ rs) h = ground (arith, live-keep id rs)

keep-live : (id : ℕ) (rs : List RunRow) → any (is_live id) rs ≡ false → keep (is_live id) rs ≡ []
keep-live id [] h = refl
keep-live id (r ∷ rs) h = ground (arith, keep-live id rs)

live-end :
    (id : ℕ) (f : RunRow → RunRow) (rs : List RunRow)
    → Ends f
    → any (is_live id) (update_where (is_live id) f rs) ≡ false
live-end id f [] e = refl
live-end id f (r ∷ rs) e = ground (arith, e r, live-end id f rs e)

-- How the failing transaction ends: the run was not running, a write was rejected, or the run is
-- failed and refunded.
pub fail_tx_cases :
    (r : RunRow) (message : Text) (d : Db)
    → ((live r.id d ≡ false) × (tx (fail_tx r message) d ≡ (ok tt, d)))
      ⊎ ((x : Error) × (tx (fail_tx r message) d ≡ (err x, d)))
      ⊎ ((keep (is_live r.id) d.runs ≢ [])
          × IsAccepted (refund_row r) d
          × (tx (fail_tx r message) d ≡ (
            ok tt,
            credited (refund_row r) (with_runs r.id (set_failed (take 500 message)) d),
          )))
unfolding fail_tx
fail_tx_cases r message d = go (keep (is_live r.id) d.runs) refl
  where
    failed : Db
    failed = with_runs r.id (set_failed (take 500 message)) d

    go :
        (rs : List RunRow)
        → keep (is_live r.id) d.runs ≡ rs
        → ((live r.id d ≡ false) × (tx (fail_tx r message) d ≡ (ok tt, d)))
          ⊎ ((x : Error) × (tx (fail_tx r message) d ≡ (err x, d)))
          ⊎ ((keep (is_live r.id) d.runs ≢ [])
              × IsAccepted (refund_row r) d
              × (tx (fail_tx r message) d ≡ (ok tt, credited (refund_row r) failed)))
    go [] e = inl (
      live-keep r.id d.runs e,
      rw (e, refund_if)
          (rw (update_where-none (is_live r.id) (set_failed (take 500 message)) d.runs e) refl),
    )
    go (q ∷ qs) e = elim (grant_cases (refund_row r) failed) [
      | inl (x, d', g) ↦ inr (inl (x, rw (e, refund_if) (rw g)))
      | inr (c, a, g) ↦ inr (
          inr
            (λ none_live. cc, record { fits = a.fits; known = a.known }, rw (e, refund_if) (rw g)))
    ]

failed-IsSound :
    (r : RunRow) (message : Text) (d : Db)
    → keep (is_live r.id) d.runs ≢ []
    → IsAccepted (refund_row r) d
    → IsSound d
    → IsSound (credited (refund_row r) (with_runs r.id (set_failed message) d))
failed-IsSound r message d some_live a v = record {
  balanced = credit-IsBalanced (refund_row r) d.users d.credit_ledger v.balanced a.known a.fits;
  charged =
      fail-IsCharged r.id message (refund_row r) d.runs d.credit_ledger refl refl some_live
        v.charged;
  exclusive = end-IsExclusive (is_live r.id) (set_failed message) d.runs (λ _. refl) v.exclusive;
}

-- Failing a run, whatever its state, keeps every balance and every charge right.
pub fail_tx-IsSound :
    (r : RunRow) (message : Text) (d : Db) → IsSound d → IsSound (tx (fail_tx r message) d).1
fail_tx-IsSound r message d v = elim (fail_tx_cases r message d) [
  | inl (dead, e) ↦ rw e v
  | inr (inl (x, e)) ↦ rw e v
  | inr (inr (some_live, a, e)) ↦ rw e (failed-IsSound r (take 500 message) d some_live a v)
]

-- If the failing transaction goes through, the run is no longer running.
pub fail_tx_ends :
    (r : RunRow) (message : Text) (d : Db)
    → (tx (fail_tx r message) d).0 ≡ ok tt
    → live r.id (tx (fail_tx r message) d).1 ≡ false
fail_tx_ends r message d h = elim (fail_tx_cases r message d) [
  | inl (dead, e) ↦ rw e dead
  | inr (inl (x, e)) ↦ absurd (ground arith)
  | inr (inr (some_live, a, e)) ↦
      rw e (live-end r.id (set_failed (take 500 message)) d.runs (λ _. refl))
]

-- Failing a run that is not running neither changes nor refunds it: the transaction succeeds and
-- leaves the database as it was.
pub fail_tx_dead :
    (r : RunRow) (message : Text) (d : Db)
    → live r.id d ≡ false
    → tx (fail_tx r message) d ≡ (ok tt, d)
unfolding fail_tx
fail_tx_dead r message d h =
    rw (keep-live r.id d.runs h, refund_if)
      (rw
        (update_where-none (is_live r.id) (set_failed (take 500 message)) d.runs
          (keep-live r.id d.runs h))
        refl)

-- The database after a run is completed: `ts` are the updated threads.
abbrev completed : ℕ → RunRow → Text → List ThreadRow → Db → Db
completed message r text ts d = record d {
  threads = ts;
  messages = answer message r.thread_id text ∷ d.messages;
  runs = update_where (is_live r.id) set_done d.runs;
}

-- How the completing transaction ends: a write was rejected, or all of it is done.
pub complete_tx_cases :
    (message : ℕ) (r : RunRow) (text : Text) (d : Db)
    → ((x : Error) × (tx (complete_tx message r text) d ≡ (err x, d)))
      ⊎ ((ts : List ThreadRow) × (tx (complete_tx message r text) d
            ≡ (ok tt, completed message r text ts d)))
unfolding complete_tx
complete_tx_cases message r text d =
    elim (insert_message_cases (answer message r.thread_id text) d) [
      | inl (x, e) ↦ inl (x, rw e)
      | inr e ↦
          elim (Option-cases
            (touch_rows r.thread_id (first_question r.thread_id d1) r.model_id d.threads)) [
              | inl null ↦ inl (pg SqlState.not_null_violation, rw e (rw (null, touch_thread)))
              | inr (ts, f) ↦ inr (ts, rw e (rw (f, touch_thread)))
            ]
    ]
  where
    d1 : Db
    d1 = record d { messages = answer message r.thread_id text ∷ d.messages }

-- Completing a run keeps every balance and every charge right: the run keeps its one charge, and a
-- run that was failed meanwhile stays failed.
pub complete_tx-IsSound :
    (message : ℕ) (r : RunRow) (text : Text) (d : Db)
    → IsSound d
    → IsSound (tx (complete_tx message r text) d).1
complete_tx-IsSound message r text d v = elim (complete_tx_cases message r text d) [
  | inl (x, e) ↦ rw e v
  | inr (ts, e) ↦ rw e (record {
    balanced = v.balanced;
    charged = done-IsCharged r.id d.runs d.credit_ledger v.charged;
    exclusive = end-IsExclusive (is_live r.id) set_done d.runs (λ _. refl) v.exclusive;
  })
]

-- If the completing transaction goes through, the run is no longer running.
pub complete_tx_ends :
    (message : ℕ) (r : RunRow) (text : Text) (d : Db)
    → (tx (complete_tx message r text) d).0 ≡ ok tt
    → live r.id (tx (complete_tx message r text) d).1 ≡ false
complete_tx_ends message r text d h = elim (complete_tx_cases message r text d) [
  | inl (x, e) ↦ absurd (ground arith)
  | inr (ts, e) ↦ rw e (live-end r.id set_done d.runs (λ _. refl))
]
