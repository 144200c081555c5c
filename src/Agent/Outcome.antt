-- ===== src/Agent/Outcome.antt =====
-- A whole job and the boot sweep (src/agent/agent.processor.ts) and the invariant of the database.
use micro_manus_services.Base.{
  ℕ, refl, inl, inr, Bool, true, false, Option, none, some, List, [], ◌∷◌, ◌++◌, Bool-cases, Text,
  codes, keep, find,
}
use micro_manus_services.Db.{Result, ok, err, RunRow, tx, is_running}
use micro_manus_services.Db.Statements.{is_run}
use micro_manus_services.Ledger.Keeps.{
  Keeps, bind-Keeps, pure-Keeps, gets-Keeps, on_db-Keeps, publish-Keeps, modify-Keeps,
}
use micro_manus_services.Ledger.Sound.{IsSound}
use micro_manus_services.Llm.Service.{resolve_key}
use micro_manus_services.Llm.Types.{ToolCall}
use micro_manus_services.Models.{ModelEntry, get_model}
use micro_manus_services.Agent.Loop.{Services, Ended, cancelled_by_user, finished}
use micro_manus_services.Agent.Finalize.{fail_tx, complete_tx}
use micro_manus_services.Agent.Ending.{fail_tx-IsSound, complete_tx-IsSound}
use micro_manus_services.Agent.Invariant.{turns-Keeps}
use micro_manus_services.Agent.Process.{
  turns_left, resumed_turns, queue_summary, Job, Blocks, process, attempt, finish, finalize_failed,
  with_run, with_model, after_attempt, retries, sweep, sweep_each, context, credits_now, is_stale,
}
use micro_manus_services.RunEvents.{run_completed, run_started}
use micro_manus_services.Billing.{message_of}
use micro_manus_services.World.{World}

pub fail-Keeps : (r : RunRow) (message : Text) → Keeps (finalize_failed r message)
unfolding finalize_failed
fail-Keeps r message =
    bind-Keeps (on_db-Keeps (tx (fail_tx r message)) (fail_tx-IsSound r message))
      λ _. publish-Keeps r.id _

sweep_each-Keeps : (rs : List RunRow) → Keeps (sweep_each rs)
sweep_each-Keeps [] = pure-Keeps tt
sweep_each-Keeps (r ∷ rs) =
    bind-Keeps (fail-Keeps r (codes "Run interrupted by a server restart")) λ _. sweep_each-Keeps rs

-- The boot sweep keeps the invariant of the database.
pub sweep-IsSound : (now : ℕ) (w : World) → IsSound w.db → IsSound (sweep now w).1.db
unfolding sweep
sweep-IsSound now w v = (sweep_each-Keeps (keep (is_stale now) w.db.runs)).keeps w v

module _ (sv : Services) (bl : Blocks) (decrypt : Text → Result Text) (message : ℕ) where
  module _
      (tools_keep : (r : RunRow) (tc : ToolCall) (w : World)
        → IsSound w.db
        → IsSound (sv.execute r tc w).1.db)
      (others_keep : (i : ℕ) (w : World) → IsSound w.db → IsSound (sv.others i w).db) where
    finish-Keeps : (r : RunRow) (e : Ended) → Keeps (finish sv bl decrypt message r e)
    unfolding finish
    finish-Keeps r cancelled_by_user = pure-Keeps true
    finish-Keeps r (finished text cost) =
        bind-Keeps
          (on_db-Keeps (tx (complete_tx message r text)) (complete_tx-IsSound message r text))
          λ _. bind-Keeps (gets-Keeps (credits_now sv bl decrypt message r.user_id)) λ credits.
            bind-Keeps (publish-Keeps r.id (run_completed r.id cost credits))
              λ _. bind-Keeps (modify-Keeps (queue_summary r) (λ w. refl)) λ _. pure-Keeps false

    attempt-Keeps : (r : RunRow) (m : ModelEntry) → Keeps (attempt sv bl decrypt message r m)
    unfolding attempt
    attempt-Keeps r m =
        bind-Keeps (on_db-Keeps (resolve_key decrypt r.user_id m) (λ d v. unfold resolve_key in v))
          λ key. bind-Keeps (gets-Keeps (λ w. context sv bl decrypt message r w.db)) λ msgs.
            bind-Keeps (publish-Keeps r.id (run_started r.id r.thread_id r.model_id)) λ _.
              bind-Keeps
                (turns-Keeps sv tools_keep others_keep r key m (turns_left r)
                  (resumed_turns msgs r))
                λ ended. finish-Keeps r ended

    after_attempt-IsSound :
        (j : Job) (r : RunRow) (x : Result Bool × World)
        → IsSound x.1.db
        → IsSound (after_attempt sv bl decrypt message j r x).1.db
    after_attempt-IsSound j r (ok true, w) v = (fail-Keeps r (codes "Cancelled by user")).keeps w v
    after_attempt-IsSound j r (ok false, w) v = v
    after_attempt-IsSound j r (err e, w) v = elim (Bool-cases (retries j e)) [
      | inl again ↦ rw again v
      | inr last ↦ rw last ((fail-Keeps r (message_of e)).keeps w v)
    ]

    with_run-IsSound :
        (j : Job) (found : Option RunRow) (w : World)
        → IsSound w.db
        → IsSound (with_run sv bl decrypt message j found w).1.db
    with_run-IsSound j none w v = v
    with_run-IsSound j (some r) w v = elim (Bool-cases (is_running r.status)) [
      | inr ended ↦ rw ended v
      | inl alive ↦ rw alive (with_model-IsSound (get_model r.model_id))
    ]
      where
        with_model-IsSound :
            (m : Option ModelEntry) → IsSound (with_model sv bl decrypt message j r m w).1.db
        with_model-IsSound none = (fail-Keeps r (codes "Unknown model " ++ r.model_id)).keeps w v
        with_model-IsSound (some m) =
            after_attempt-IsSound j r (attempt sv bl decrypt message r m w)
              ((attempt-Keeps r m).keeps w v)

    -- Whatever the model answers and whichever attempt it is, a job keeps every balance and every
    -- charge right and a thread's running run alone, if the tools and the other requests do.
    pub process-IsSound :
        (j : Job) (w : World) → IsSound w.db → IsSound (process sv bl decrypt message j w).1.db
    unfolding process
    process-IsSound j w v = with_run-IsSound j (find (is_run j.run_id) w.db.runs) w v
