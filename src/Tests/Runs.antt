-- ===== src/Tests/Runs.antt =====
-- Runs of the worker at concrete inputs.
use micro_manus_services.Base.{
  ℕ, ◌+◌, ◌≡◌, refl, false, none, List, [], ◌∷◌, ◌++◌, arith, codes, text_eq, ◌≤◌,
}
use micro_manus_services.Db.{ok, RunRow, RunStatus, KeyProvider, tx}
use micro_manus_services.Db.Statements.{insert_message}
use micro_manus_services.Ledger.Sound.{IsSound}
use micro_manus_services.Llm.Types.{ToolCall}
use micro_manus_services.Llm.Service.{ResolvedKey, resolve_key, pick_key}
use micro_manus_services.Models.{get_model, claude_opus_4_8}
use micro_manus_services.RunEvents.{RunStep, llm, tool, sort_steps, steps_to_events}
use micro_manus_services.Agent.Resume.{drop_incomplete}
use micro_manus_services.Agent.Rounds.{
  Answered, drop_incomplete-Answered, drop_incomplete-same, drop_incomplete-prefix,
}
use micro_manus_services.Agent.Finalize.{fail_tx, complete_tx, touch_thread, end_run}
use micro_manus_services.Agent.Ending.{live, fail_tx-IsSound, fail_tx_dead, complete_tx-IsSound}
use micro_manus_services.Agent.Loop.{
  Turns, empty_object, turns, take_turn, after_stream, persist_step,
}
use micro_manus_services.Agent.Answer.{Said, turns_answer}
use micro_manus_services.Agent.Process.{process, attempt, finish}
use micro_manus_services.Agent.Settles.{process_settles}
use micro_manus_services.Usage.Cost.{record_usage, cost, thread_cost}
use micro_manus_services.RunEvents.Replay.{swapped, steps_to_events-Reordered}
use micro_manus_services.Usage.Recorded.{record_usage-thread_cost}
use micro_manus_services.Tests.Data.{
  sample, sample-IsSound, world, services, blocks, decrypted, job, running_run, usage, opus,
}

process_settles_example : live 10 (process services blocks decrypted 22 job world).1.db ≡ false
unfolding process attempt finish turns take_turn after_stream record_usage persist_step cost
    thread_cost resolve_key pick_key complete_tx touch_thread end_run insert_message get_model
    text_eq drop_incomplete sort_steps
process_settles_example = process_settles services blocks decrypted 22 job world sample-IsSound refl

abbrev pub key : ResolvedKey
key = record { provider = KeyProvider.anthropic; base_url = []; api_key = [] }

abbrev start : Turns
start = record { msgs = []; steps = []; run_cost = 0; iteration = 0 }

turns_answer_example : Said services running_run key claude_opus_4_8 (codes "Hi")
unfolding turns take_turn after_stream record_usage persist_step cost thread_cost get_model text_eq
turns_answer_example =
    turns_answer services running_run key claude_opus_4_8 11 start world (codes "Hi") 525000
      (λ msgs deltas res e. ground (arith, e)) refl refl

abbrev pub call : ToolCall
call = record { id = codes "c1"; name = codes "web_search"; args = codes "{}" }

abbrev pub asking : ℕ → RunStep
asking i =
    llm (record { i = i; text = []; tool_calls = call ∷ []; usage = usage; cost_usd = 7; at = i })

abbrev pub result : ℕ → RunStep
result i = tool (record {
  i = i;
  call_id = codes "c1";
  tool = codes "web_search";
  args = empty_object;
  content = [];
  summary = [];
  duration_ms = 1;
  artifact_id = none;
  artifact_type = none;
  artifact_title = none;
  sources = none;
  at = i;
})

-- A worker that was stopped before the second call's result.
drop_incomplete-Answered_example : Answered (drop_incomplete (asking 0 ∷ result 1 ∷ asking 2 ∷ []))
unfolding text_eq
drop_incomplete-Answered_example =
    drop_incomplete-Answered (asking 0 ∷ result 1 ∷ asking 2 ∷ []) ((λ h. refl), ((λ h. cc), tt))

drop_incomplete-same_at_sample :
    drop_incomplete (asking 0 ∷ result 1 ∷ []) ≡ asking 0 ∷ result 1 ∷ []
unfolding text_eq
drop_incomplete-same_at_sample = drop_incomplete-same (asking 0 ∷ result 1 ∷ []) (refl, tt)

drop_incomplete-prefix_at_sample :
    (rest : List RunStep) × (drop_incomplete (asking 0 ∷ result 1 ∷ asking 2 ∷ []) ++ rest
      ≡ asking 0 ∷ result 1 ∷ asking 2 ∷ [])
drop_incomplete-prefix_at_sample = drop_incomplete-prefix (asking 0 ∷ result 1 ∷ asking 2 ∷ [])

fail_tx-IsSound_at_sample : IsSound (tx (fail_tx running_run (codes "no")) sample).1
fail_tx-IsSound_at_sample = fail_tx-IsSound running_run (codes "no") sample sample-IsSound

complete_tx-IsSound_at_sample : IsSound (tx (complete_tx 22 running_run (codes "Hi")) sample).1
complete_tx-IsSound_at_sample =
    complete_tx-IsSound 22 running_run (codes "Hi") sample sample-IsSound

abbrev pub done_run : RunRow
done_run = record running_run { id = 12; status = RunStatus.done }

fail_tx_dead_at_sample :
    tx (fail_tx done_run (codes "late")) (record sample { runs = done_run ∷ [] })
    ≡ (ok tt, record sample { runs = done_run ∷ [] })
fail_tx_dead_at_sample =
    fail_tx_dead done_run (codes "late") (record sample { runs = done_run ∷ [] }) refl

-- The second of two tools was done first.
steps_to_events-Reordered_example :
    steps_to_events (asking 0 ∷ result 2 ∷ result 1 ∷ [])
    ≡ steps_to_events (asking 0 ∷ result 1 ∷ result 2 ∷ [])
steps_to_events-Reordered_example =
    steps_to_events-Reordered (asking 0 ∷ result 2 ∷ result 1 ∷ [])
      (asking 0 ∷ result 1 ∷ result 2 ∷ [])
      (swapped (asking 0 ∷ []) (result 2) (result 1) [] (λ e. omega (arith, e)))

record_usage-thread_cost_example :
    (525000 ≡ cost opus usage)
    × (thread_cost 5 (record_usage 1 5 10 opus usage sample).1 ≤ thread_cost 5 sample + 525000 + 50)
    × (thread_cost 5 sample + 525000 ≤ thread_cost 5 (record_usage 1 5 10 opus usage sample).1 + 50)
    × (thread_cost 6 (record_usage 1 5 10 opus usage sample).1 ≡ thread_cost 6 sample)
unfolding record_usage cost get_model text_eq
record_usage-thread_cost_example =
    record_usage-thread_cost 1 5 6 10 opus usage sample 525000 (λ e. omega (arith, e)) refl
