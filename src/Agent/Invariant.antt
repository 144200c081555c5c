-- ===== src/Agent/Invariant.antt =====
-- The loop of a worker (src/agent/agent.processor.ts) and the invariant of the database.
use micro_manus_services.Base.{
  ℕ, zero, suc, ◌≡◌, refl, inl, inr, Bool, true, false, List, [], ◌∷◌, arith, Text, length, any,
  update_where, All,
}
use micro_manus_services.Db.{Db, ok, RunRow, LedgerRow}
use micro_manus_services.Db.Statements.{is_run, runs_in}
use micro_manus_services.Ledger.{Charged, IsExclusive}
use micro_manus_services.Ledger.Balance.{map-update_where}
use micro_manus_services.Ledger.Keeps.{
  Keeps, bind-Keeps, result-Keeps, pure-Keeps, gets-Keeps, on_db-Keeps, publish-Keeps,
}
use micro_manus_services.Ledger.Sound.{IsSound}
use micro_manus_services.Llm.Types.{ToolCall, NormUsage, TurnResult}
use micro_manus_services.Llm.Service.{ResolvedKey}
use micro_manus_services.Models.{ModelEntry}
use micro_manus_services.RunEvents.{RunStep, RunEvent}
use micro_manus_services.Agent.Loop.{
  after_turn, unless_cancelled, run_tool, Services, Turns, finish_tool, add_step, persist_step,
  publish_all, turns, finish_tools, take_turn, after_stream, close_turn, run_tools, Turned, stop,
  go_on, Ended, cancelled_by_user, is_cancelled,
}
use micro_manus_services.Usage.Cost.{record_usage, record_usage_cases}
use micro_manus_services.World.{World, Action, on_db, await}

pub publish_all-Keeps : (run : ℕ) (es : List RunEvent) → Keeps (publish_all run es)
publish_all-Keeps run [] = result-Keeps (ok tt)
publish_all-Keeps run (e ∷ es) = bind-Keeps (publish-Keeps run e) (λ _. publish_all-Keeps run es)

pub record_usage-IsSound :
    (user thread run : ℕ) (model : Text) (u : NormUsage) (d : Db)
    → IsSound d
    → IsSound (record_usage user thread run model u d).1
record_usage-IsSound user thread run model u d v =
    elim (record_usage_cases user thread run model u d) [
      | inl (x, e) ↦ rw e v
      | inr e ↦
          rw e (record { balanced = v.balanced; charged = v.charged; exclusive = v.exclusive })
    ]

-- A step is appended to a run: its key, thread and status stay.
steps-Charged :
    (id : ℕ) (s : RunStep) (rs : List RunRow) (es : List LedgerRow)
    → All (Charged es) rs
    → All (Charged es) (update_where (is_run id) (add_step s) rs)
steps-Charged id s [] es h = tt
steps-Charged id s (r ∷ rs) es h = (ground arith, steps-Charged id s rs es h.1)

runs_in-steps :
    (thread id : ℕ) (s : RunStep) (rs : List RunRow)
    → any (runs_in thread) (update_where (is_run id) (add_step s) rs) ≡ any (runs_in thread) rs
runs_in-steps thread id s [] = refl
runs_in-steps thread id s (r ∷ rs) = ground (arith, runs_in-steps thread id s rs)

steps-IsExclusive :
    (id : ℕ) (s : RunStep) (rs : List RunRow)
    → IsExclusive rs
    → IsExclusive (update_where (is_run id) (add_step s) rs)
steps-IsExclusive id s [] h = tt
steps-IsExclusive id s (r ∷ rs) h =
    (λ alive. ground (arith, runs_in-steps r.thread_id id s rs), steps-IsExclusive id s rs h.1)

pub persist_step-IsSound :
    (id : ℕ) (s : RunStep) (d : Db) → IsSound d → IsSound (persist_step id s d).1
unfolding persist_step
persist_step-IsSound id s d v = record {
  balanced = v.balanced;
  charged = record {
    keys =
        rw (map-update_where (λ r. r.id) (is_run id) (add_step s) (λ r. refl) d.runs)
          v.charged.keys;
    charged = steps-Charged id s d.runs d.credit_ledger v.charged.charged;
  };
  exclusive = steps-IsExclusive id s d.runs v.exclusive;
}

persist-Keeps : (id : ℕ) (s : RunStep) → Keeps (on_db (persist_step id s))
persist-Keeps id s = on_db-Keeps (persist_step id s) (persist_step-IsSound id s)

record_usage-Keeps :
    (user thread run : ℕ) (model : Text) (u : NormUsage)
    → Keeps (on_db (record_usage user thread run model u))
record_usage-Keeps user thread run model u =
    on_db-Keeps (record_usage user thread run model u)
      (record_usage-IsSound user thread run model u)

ruleset step_rules = (
  bind-Keeps, persist-Keeps, publish-Keeps, publish_all-Keeps, gets-Keeps, result-Keeps, pure-Keeps,
)

module _ (sv : Services)
    (tools_keep : (r : RunRow) (tc : ToolCall) (w : World)
      → IsSound w.db
      → IsSound (sv.execute r tc w).1.db)
    (others_keep : (i : ℕ) (w : World) → IsSound w.db → IsSound (sv.others i w).db) (r : RunRow)
    (key : ResolvedKey) (m : ModelEntry) where
  run_tool-Keeps : (tc : ToolCall) → Keeps (run_tool sv r key m tc)
  run_tool-Keeps tc = record { keeps = tools_keep r tc }

  await-Keeps : (i : ℕ) → Keeps (await (sv.others i))
  await-Keeps i = record { keeps = others_keep i }

  finish_tool-Keeps : (c : ℕ × ToolCall) (t : Turns) → Keeps (finish_tool sv r key m c t)
  unfolding finish_tool
  finish_tool-Keeps (i, tc) t = search (run_tool-Keeps, step_rules) depth 12

  finish_tools-Keeps : (cs : List (ℕ × ToolCall)) (t : Turns) → Keeps (finish_tools sv r key m cs t)
  unfolding finish_tools
  finish_tools-Keeps [] t = result-Keeps (ok t)
  finish_tools-Keeps (c ∷ cs) t = bind-Keeps (finish_tool-Keeps c t) λ t'. finish_tools-Keeps cs t'

  run_tools-Keeps :
      (first : ℕ) (calls : List ToolCall) (t : Turns) → Keeps (run_tools sv r key m first calls t)
  unfolding run_tools
  run_tools-Keeps first calls t = search (finish_tools-Keeps, step_rules) depth 12

  close_turn-Keeps :
      (res : TurnResult) (calls : List ToolCall) (t : Turns)
      → Keeps (close_turn sv r key m res calls t)
  close_turn-Keeps res [] t = pure-Keeps _
  close_turn-Keeps res (c ∷ cs) t =
      bind-Keeps (run_tools-Keeps (length t.steps) (c ∷ cs) t) λ t'. pure-Keeps _

  after_stream-Keeps : (t : Turns) (res : TurnResult) → Keeps (after_stream sv r key m t res)
  unfolding after_stream
  after_stream-Keeps t res = search (record_usage-Keeps, close_turn-Keeps, step_rules) depth 20

  take_turn-Keeps : (t : Turns) → Keeps (take_turn sv r key m t)
  unfolding take_turn
  take_turn-Keeps t = search (after_stream-Keeps, step_rules) depth 20

  after_turn-Keeps :
      (next : Turns → Action Ended)
      → ((t : Turns) → Keeps (next t))
      → (x : Turned) → Keeps (after_turn sv r key m next x)
  after_turn-Keeps next h (stop e) = result-Keeps (ok e)
  after_turn-Keeps next h (go_on t) = h t

  unless-Keeps :
      (flag : Bool) (next : Action Ended)
      → Keeps next
      → Keeps (unless_cancelled sv r key m flag next)
  unless-Keeps true next h = result-Keeps (ok cancelled_by_user)
  unless-Keeps false next h = h

  pub turns-Keeps : (k : ℕ) (t : Turns) → Keeps (turns sv r key m k t)
  unfolding turns
  turns-Keeps zero t = pure-Keeps _
  turns-Keeps (suc k) t = bind-Keeps (await-Keeps t.iteration) λ _.
      bind-Keeps (gets-Keeps (is_cancelled sv r key m)) λ flag.
        unless-Keeps flag _
          (bind-Keeps (take_turn-Keeps t) (after_turn-Keeps (turns sv r key m k) (turns-Keeps k)))
