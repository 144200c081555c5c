-- ===== src/Agent/LastAttempt.antt =====
-- The last attempt of a job of src/agent/agent.processor.ts: what it can still throw.
use micro_manus_services.Base.{
  ℕ, ◌+◌, ⊤, ◌≡◌, refl, ◌⊎◌, inl, inr, Bool, true, false, Option, none, some, ◌++◌, arith, ltb,
  Bool-cases, Text, codes, take, find,
}
use micro_manus_services.Db.{Db, Result, ok, err, Error, RunRow, tx, settle, is_running}
use micro_manus_services.Db.Statements.{is_run}
use micro_manus_services.Ledger.Sound.{IsSound}
use micro_manus_services.Models.{ModelEntry, get_model}
use micro_manus_services.RunEvents.{run_failed}
use micro_manus_services.Agent.Loop.{Services}
use micro_manus_services.Agent.Finalize.{fail_tx}
use micro_manus_services.Agent.Ending.{live}
use micro_manus_services.Agent.Process.{
  Job, Blocks, process, attempt, finalize_failed, with_run, with_model, after_attempt, retries,
}
use micro_manus_services.Agent.Settles.{process_settles}
use micro_manus_services.Billing.{message_of}
use micro_manus_services.World.{World, publish, with_db, then_act}

-- In a database, the transaction that fails the run with some text is rejected with the error.
pub record Rejects (r : RunRow) (x : Error) (d : Db) : Type 0 where
  pub text : Text
  pub rejected : (tx (fail_tx r text) d).0 ≡ err x

-- Nothing was written then, so it is still rejected in the database that is left.
fail-Rejects :
    (r : RunRow) (text : Text) (w : World) (x : Error)
    → (finalize_failed r text w).0 ≡ err x
    → Rejects r x (finalize_failed r text w).1.db
unfolding finalize_failed
fail-Rejects r text w x = go (fail_tx r text w.db) refl
  where
    go :
        (y : Result ⊤ × Db)
        → fail_tx r text w.db ≡ y
        → (then_act
            (λ _. publish r.id (run_failed r.id (take 300 text) true))
            (with_db w (settle w.db y))).0
          ≡ err x
        → Rejects r x
            (then_act
              (λ _. publish r.id (run_failed r.id (take 300 text) true))
              (with_db w (settle w.db y))).1.db
    go (ok a, d) q e = absurd cc
    go (err z, d) q e = record { text = text; rejected = rw q e }

module _ (sv : Services) (bl : Blocks) (decrypt : Text → Result Text) (message : ℕ) (j : Job)
    (last : ltb (j.attempts_made + 1) j.attempts ≡ false) where
  no_retry : (x : Error) → retries j x ≡ false
  no_retry x = rw last (ground arith)

  after_attempt-Rejects :
      (r : RunRow) (y : Result Bool × World) (x : Error)
      → (after_attempt sv bl decrypt message j r y).0 ≡ err x
      → Rejects r x (after_attempt sv bl decrypt message j r y).1.db
  after_attempt-Rejects r (ok true, w) x e = fail-Rejects r (codes "Cancelled by user") w x e
  after_attempt-Rejects r (ok false, w) x e = absurd cc
  after_attempt-Rejects r (err z, w) x e =
      rw (no_retry z) (fail-Rejects r (message_of z) w x (rw (no_retry z) at e))

  with_model-Rejects :
      (r : RunRow) (m : Option ModelEntry) (w : World) (x : Error)
      → (with_model sv bl decrypt message j r m w).0 ≡ err x
      → Rejects r x (with_model sv bl decrypt message j r m w).1.db
  with_model-Rejects r none w x = fail-Rejects r (codes "Unknown model " ++ r.model_id) w x
  with_model-Rejects r (some m) w x =
      after_attempt-Rejects r (attempt sv bl decrypt message r m w) x

  with_run-Rejects :
      (found : Option RunRow) (w : World) (x : Error)
      → (with_run sv bl decrypt message j found w).0 ≡ err x
      → (r : RunRow) × (found ≡ some r)
        × Rejects r x (with_run sv bl decrypt message j found w).1.db
  with_run-Rejects none w x e = absurd cc
  with_run-Rejects (some r) w x e = elim (Bool-cases (is_running r.status)) [
    | inl alive ↦
        (r, refl, rw alive (with_model-Rejects r (get_model r.model_id) w x (rw alive at e)))
    | inr over ↦ absurd (ground (arith, rw over at e))
  ]

  process-Rejects :
      (w : World) (x : Error)
      → (process sv bl decrypt message j w).0 ≡ err x
      → (r : RunRow) × (find (is_run j.run_id) w.db.runs ≡ some r)
        × Rejects r x (process sv bl decrypt message j w).1.db
  unfolding process
  process-Rejects w x e = with_run-Rejects (find (is_run j.run_id) w.db.runs) w x e

  -- In a database that has the invariant, the last attempt of a job leaves its run ended, or the
  -- transaction that fails the run is rejected: the job throws the error of that transaction, which
  -- the database that it leaves rejects still.
  pub last_attempt_settles :
      (w : World)
      → IsSound w.db
      → (live j.run_id (process sv bl decrypt message j w).1.db ≡ false)
        ⊎ ((x : Error) × (r : RunRow) × ((process sv bl decrypt message j w).0 ≡ err x)
            × (find (is_run j.run_id) w.db.runs ≡ some r)
            × Rejects r x (process sv bl decrypt message j w).1.db)
  last_attempt_settles w v = go (process sv bl decrypt message j w).0 refl
    where
      go :
          (y : Result ⊤)
          → (process sv bl decrypt message j w).0 ≡ y
          → (live j.run_id (process sv bl decrypt message j w).1.db ≡ false)
            ⊎ ((x : Error) × (r : RunRow) × ((process sv bl decrypt message j w).0 ≡ err x)
                × (find (is_run j.run_id) w.db.runs ≡ some r)
                × Rejects r x (process sv bl decrypt message j w).1.db)
      go (ok u) e = inl (process_settles sv bl decrypt message j w v e)
      go (err x) e = let p = process-Rejects w x e in inr (x, p.0, e, p.1, p.2)
