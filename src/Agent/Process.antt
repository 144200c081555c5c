-- ===== src/Agent/Process.antt =====
-- `process` of src/agent/agent.processor.ts: a job carries out a run, ends it, or throws so that
-- BullMQ tries again.
use micro_manus_services.Base.{
  ℕ, suc, ◌+◌, ◌-◌, ⊤, Bool, true, false, not, ◌&&◌, Option, none, some, List, [], ◌∷◌, ◌++◌, map,
  reverse, ltb, leb, ◌==◌, if◌then◌else◌, Text, codes, take, last?, keep, find,
}
use micro_manus_services.Base.Int.{ℤ, pos}
use micro_manus_services.Db.{
  Db, Result, ok, err, Error, http, pg, other, RunRow, MessageRow, tx, is_running,
}
use micro_manus_services.Db.Statements.{is_run, is_user}
use micro_manus_services.Llm.Types.{ChatMsg, ChatRole}
use micro_manus_services.Llm.Service.{resolve_key}
use micro_manus_services.Models.{ModelEntry, get_model}
use micro_manus_services.RunEvents.{
  RunStep, llm, tool, run_started, run_completed, run_failed, sort_steps,
}
use micro_manus_services.Agent.Finalize.{fail_tx, complete_tx}
use micro_manus_services.Agent.Loop.{
  Services, Turns, Ended, cancelled_by_user, finished, turns, max_iterations,
}
use micro_manus_services.Agent.Resume.{drop_incomplete, step_message}
use micro_manus_services.Billing.{message_of}
use micro_manus_services.Uploads.Context.{context_block}
use micro_manus_services.World.{
  World, Action, pure, throw, gets, on_db, ◌>>=◌, ◌>>◌, modify, publish,
}

-- `finalizeFailed`
unfoldable pub finalize_failed : RunRow → Text → Action ⊤
unfolding fail_tx
finalize_failed r message = do
  ended ← on_db (tx (fail_tx r message))
  publish r.id (run_failed r.id (take 300 message) true)

-- The BullMQ options and counters of a job.
pub record Job : Type 0 where
  pub run_id : ℕ
  pub attempts : ℕ
  pub attempts_made : ℕ

-- `(e as { status?: number }).status`; a Nest exception has one too.
abbrev pub status_of : Error → Option ℕ
status_of (http s m) = some s
status_of (pg s) = none
status_of (other s m) = s

abbrev pub is_permanent_status : Option ℕ → Bool
is_permanent_status none = false
is_permanent_status (some s) = leb 400 s && ltb s 500 && not (s == 429)

abbrev pub is_permanent : Error → Bool
is_permanent e = is_permanent_status (status_of e)

abbrev pub retries : Job → Error → Bool
retries j e = not (is_permanent e) && ltb (j.attempts_made + 1) j.attempts

abbrev pub history_message : MessageRow → ChatMsg
history_message m = record {
  role = m.role;
  content = m.content;
  tool_calls = none;
  tool_call_id = none;
}

abbrev pub in_history : ℕ → MessageRow → Bool
in_history thread m = m.thread_id == thread && not m.archived

-- The thread's messages that are not archived, oldest first.
abbrev pub history : ℕ → Db → List ChatMsg
history thread d = map history_message (reverse (keep (in_history thread) d.messages))

abbrev is_user_msg : ChatMsg → Bool
is_user_msg m = elim m.role [ ChatRole.user ↦ true | _ ↦ false ]

abbrev pub question_of : List ChatMsg → Text
question_of msgs = elim (last? (keep is_user_msg msgs)) [ none ↦ [] | some m ↦ m.content ]

-- `if (block) msgs.unshift({ role: 'user', content: block })`
abbrev pub unshift_block : Option Text → List ChatMsg → List ChatMsg
unshift_block none msgs = msgs
unshift_block (some []) msgs = msgs
unshift_block (some (c ∷ cs)) msgs =
    record { role = ChatRole.user; content = c ∷ cs; tool_calls = none; tool_call_id = none } ∷ msgs

abbrev pub step_costs : List RunStep → ℕ
step_costs [] = 0
step_costs (llm s ∷ ss) = s.cost_usd + step_costs ss
step_costs (tool s ∷ ss) = step_costs ss

abbrev pub count_llm : List RunStep → ℕ
count_llm [] = 0
count_llm (llm s ∷ ss) = suc (count_llm ss)
count_llm (tool s ∷ ss) = count_llm ss

abbrev pub start_turns : List ChatMsg → List RunStep → Turns
start_turns msgs steps = record {
  msgs = msgs ++ map step_message steps;
  steps = steps;
  run_cost = step_costs steps;
  iteration = count_llm steps;
}

-- The loop's variables after the persisted steps are laid over the history, and the turns left.
abbrev pub resumed_steps : RunRow → List RunStep
resumed_steps r = drop_incomplete (sort_steps r.steps)

abbrev pub resumed_turns : List ChatMsg → RunRow → Turns
resumed_turns msgs r = start_turns msgs (resumed_steps r)

abbrev pub turns_left : RunRow → ℕ
turns_left r = max_iterations - count_llm (resumed_steps r)

-- The memory block, `MemoryService.retrievalBlock`, which asks an embedding service.
pub record Blocks : Type 0 where
  pub memory_block : ℕ → Text → Db → Option Text

-- `summarizeQueue.add('summarize', …)`
abbrev pub queue_summary : RunRow → World → World
queue_summary r w = record w {
  summarize_jobs =
      (record { thread_id = r.thread_id; user_id = r.user_id; model_id = r.model_id })
      ∷ w.summarize_jobs;
}

module _ (sv : Services) (bl : Blocks) (decrypt : Text → Result Text) (message : ℕ) where
  abbrev pub context : RunRow → Db → List ChatMsg
  context r d =
      let msgs = history r.thread_id d in
      unshift_block (context_block r.thread_id d)
        (unshift_block (bl.memory_block r.thread_id (question_of msgs) d) msgs)

  abbrev pub credits_now : ℕ → World → ℤ
  credits_now user w = elim (find (is_user user) w.db.users) [ none ↦ pos 0 | some u ↦ u.credits ]

  -- What follows the loop inside the `try`. A cancelled run leaves it by `return`.
  unfoldable pub finish : RunRow → Ended → Action Bool
  unfolding complete_tx
  finish r cancelled_by_user = pure true
  finish r (finished text run_cost) = do
    completed ← on_db (tx (complete_tx message r text))
    credits ← gets (credits_now r.user_id)
    publish r.id (run_completed r.id run_cost credits)
    modify (queue_summary r)
    pure false

  -- The body of the `try`; the result says whether the run was cancelled.
  unfoldable pub attempt : RunRow → ModelEntry → Action Bool
  unfolding turns finish
  attempt r m = do
    key ← on_db (resolve_key decrypt r.user_id m)
    msgs ← gets (λ w. context r w.db)
    publish r.id (run_started r.id r.thread_id r.model_id)
    ended ← turns sv r key m (turns_left r) (resumed_turns msgs r)
    finish r ended

  -- The `catch`: a permanent error, or the last attempt, fails the run; others are thrown again.
  abbrev pub caught : Job → RunRow → Error → Action ⊤
  caught j r e = if retries j e then throw e else finalize_failed r (message_of e)

  -- `return this.finalizeFailed(…)` inside the `try` is not awaited there, so what it throws is not
  -- caught.
  abbrev pub after_attempt : Job → RunRow → Result Bool × World → Result ⊤ × World
  after_attempt j r (ok true, w) = finalize_failed r (codes "Cancelled by user") w
  after_attempt j r (ok false, w) = (ok tt, w)
  after_attempt j r (err e, w) = caught j r e w

  abbrev pub with_model : Job → RunRow → Option ModelEntry → Action ⊤
  with_model j r none w = finalize_failed r (codes "Unknown model " ++ r.model_id) w
  with_model j r (some m) w = after_attempt j r (attempt r m w)

  abbrev pub with_run : Job → Option RunRow → Action ⊤
  with_run j none = pure tt
  with_run j (some r) =
      if is_running r.status then with_model j r (get_model r.model_id) else pure tt

  unfoldable pub process : Job → Action ⊤
  unfolding attempt finalize_failed
  process j w = with_run j (find (is_run j.run_id) w.db.runs) w

-- `onModuleInit`: the boot sweep fails the runs that started more than thirty minutes ago.
abbrev pub is_stale : ℕ → RunRow → Bool
is_stale now r = is_running r.status && ltb (r.started_at + 1800000) now

abbrev pub sweep_each : List RunRow → Action ⊤
sweep_each [] = pure tt
sweep_each (r ∷ rs) =
    finalize_failed r (codes "Run interrupted by a server restart") >> sweep_each rs

unfoldable pub sweep : ℕ → Action ⊤
unfolding finalize_failed
sweep now w = sweep_each (keep (is_stale now) w.db.runs) w
