-- ===== src/Agent/Settles.antt =====
-- How a job leaves its run (src/agent/agent.processor.ts).
use micro_manus_services.Base.{
  ℕ, ⊤, ◌≡◌, refl, inl, inr, true, false, Option, none, some, List, [], ◌∷◌, arith, ◌==◌,
  Bool-cases, Text, take, find, any,
}
use mathlib.Core.Path.{subst}
use micro_manus_services.Db.{Db, Result, ok, err, RunRow, tx, is_running}
use micro_manus_services.Db.Statements.{is_run}
use micro_manus_services.Ledger.{NoDup, run_ids, contains}
use micro_manus_services.Ledger.Charges.{is_live}
use micro_manus_services.Ledger.Sound.{IsSound}
use micro_manus_services.Models.{get_model}
use micro_manus_services.RunEvents.{run_failed}
use micro_manus_services.Agent.Loop.{Services, Ended, cancelled_by_user, finished}
use micro_manus_services.Agent.Finalize.{fail_tx, complete_tx}
use micro_manus_services.Agent.Ending.{live, fail_tx_ends, complete_tx_ends}
use micro_manus_services.Agent.Leaves.{Leaves, with_model-Leaves}
use micro_manus_services.Agent.Process.{
  Job, Blocks, process, finish, finalize_failed, with_run, with_model,
}
use micro_manus_services.World.{World, Action, publish, with_db, then_act}

-- An action that returns `a` leaves the run ended.
abbrev Settles : ℕ → {A : Type 0} → A → Action A → Type 0
Settles id a m = Leaves (λ w. live id w.db ≡ false) a m

module _ {A : Type 0} (id : ℕ) (a : A) (f : Action A) where
  -- What follows a transaction that ended the run, and leaves the database alone.
  tx-Settles :
      (w : World) (x : Result ⊤ × Db)
      → ((w : World) → (f w).1.db ≡ w.db)
      → (x.0 ≡ ok tt → live id x.1 ≡ false)
      → (then_act (λ _. f) (with_db w x)).0 ≡ ok a
      → live id (then_act (λ _. f) (with_db w x)).1.db ≡ false
  tx-Settles w (ok u, d) same h e = rw (same (record w { db = d })) (h refl)
  tx-Settles w (err x, d) same h e = cc

fail-Settles : (r : RunRow) (message : Text) → Settles r.id tt (finalize_failed r message)
unfolding finalize_failed
fail-Settles r message = record {
  leaves = λ w.
      tx-Settles r.id tt (publish r.id (run_failed r.id (take 300 message) true)) w
        (tx (fail_tx r message) w.db) (λ w'. refl) (fail_tx_ends r message w.db);
}

module _ (sv : Services) (bl : Blocks) (decrypt : Text → Result Text) (message : ℕ) where
  finish-Settles : (r : RunRow) (e : Ended) → Settles r.id false (finish sv bl decrypt message r e)
  unfolding finish
  finish-Settles r cancelled_by_user = record { leaves = λ w e. cc }
  finish-Settles r (finished text cost) = record {
    leaves = λ w.
        tx-Settles r.id false _ w (tx (complete_tx message r text) w.db) (λ w'. refl)
          (complete_tx_ends message r text w.db);
  }

  pub find_run-id :
      (id : ℕ) (rs : List RunRow) (r : RunRow) → find (is_run id) rs ≡ some r → r.id ≡ id
  find_run-id id [] r h = cc
  find_run-id id (q ∷ qs) r h = ground (arith, find_run-id id qs r)

  absent-live :
      (id : ℕ) (rs : List RunRow) → contains id (run_ids rs) ≡ false → any (is_live id) rs ≡ false
  absent-live id [] h = refl
  absent-live id (q ∷ qs) h = ground (arith, absent-live id qs)

  none-live : (id : ℕ) (rs : List RunRow) → find (is_run id) rs ≡ none → any (is_live id) rs ≡ false
  none-live id [] h = refl
  none-live id (q ∷ qs) h = ground (arith, none-live id qs)

  ended-live :
      (id : ℕ) (rs : List RunRow) (r : RunRow)
      → NoDup (run_ids rs)
      → find (is_run id) rs ≡ some r
      → is_running r.status ≡ false
      → any (is_live id) rs ≡ false
  ended-live id [] r d h e = refl
  ended-live id (q ∷ qs) r d h e = elim (Bool-cases (q.id == id)) [
    | inl hit ↦ ground (arith, absent-live id qs)
    | inr miss ↦ ground (arith, ended-live id qs r d.1)
  ]

  -- In a database that has the invariant, a job that returns and does not throw leaves its run
  -- ended: done, failed, or no longer there.
  pub process_settles :
      (j : Job) (w : World)
      → IsSound w.db
      → (process sv bl decrypt message j w).0 ≡ ok tt
      → live j.run_id (process sv bl decrypt message j w).1.db ≡ false
  unfolding process
  process_settles j w v = go (find (is_run j.run_id) w.db.runs) refl
    where
      go :
          (found : Option RunRow)
          → find (is_run j.run_id) w.db.runs ≡ found
          → (with_run sv bl decrypt message j found w).0 ≡ ok tt
          → live j.run_id (with_run sv bl decrypt message j found w).1.db ≡ false
      go none q e = none-live j.run_id w.db.runs q
      go (some r) q e = elim (Bool-cases (is_running r.status)) [
        | inr over ↦ rw over (ended-live j.run_id w.db.runs r v.charged.keys q over)
        | inl alive ↦ rw alive (
            subst
              (λ i.
                live i (with_model sv bl decrypt message j r (get_model r.model_id) w).1.db ≡ false)
              (find_run-id j.run_id w.db.runs r q)
              (with_model-Leaves sv bl decrypt message r (λ w. live r.id w.db ≡ false)
                (fail-Settles r) (finish-Settles r) j (get_model r.model_id) w (rw alive at e)))
      ]
