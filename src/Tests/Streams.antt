-- ===== src/Tests/Streams.antt =====
-- The streams of the providers and of a browser at concrete inputs.
use micro_manus_services.Base.{
  ℕ, ◌≡◌, refl, ◌⊎◌, inr, true, false, Option, none, some, List, [], ◌∷◌, ◌++◌, map, Text, codes,
  keep, any, text_eq,
}
use micro_manus_services.Base.Int.{pos, ◌+ℤ◌}
use micro_manus_services.Db.{Db, Result, ok, err, KeyProvider, RunRow, RunStatus, tx}
use micro_manus_services.RunEvents.{
  run_completed, text_delta, run_failed, steps_to_events, sort_steps,
}
use micro_manus_services.Llm.Types.{Json, ChatRole, ChatMsg}
use micro_manus_services.Llm.Service.{TurnRequest}
use micro_manus_services.Llm.Chunks.{
  Chunk, Fragment, on_chunks, turn_result, nothing_streamed, is_complete,
}
use micro_manus_services.Llm.OpenaiCompat.{
  request_messages, is_cacheable, system_msg, to_wire, ephemeral,
}
use micro_manus_services.Llm.Chunks.Fragments.{all_fragments, of_index, joined, concat}
use micro_manus_services.Llm.Chunks.Table.{first_seen}
use micro_manus_services.Llm.Chunks.Turn.{turn_result-on_chunks}
use micro_manus_services.Llm.OpenaiCompat.Request.{side, request_messages-marks}
use micro_manus_services.Llm.Anthropic.{
  MessageParam, to_anthropic_messages, with_cache_breakpoint, push_result, use_blocks,
}
use micro_manus_services.Llm.Anthropic.Groups.{grouped, to_anthropic_messages-grouped}
use micro_manus_services.Llm.Anthropic.Pairs.{IsPaired, shown}
use micro_manus_services.Agent.Loop.{request_msgs}
use micro_manus_services.Agent.Process.{context, resumed_turns}
use micro_manus_services.Agent.Requests.{resumed-IsPaired}
use micro_manus_services.Agent.Sse.{Arrival, live, Connection, Course, Wait, events, is_terminal}
use micro_manus_services.Agent.Sse.Once.{LastOnly, events-LastOnly}
use micro_manus_services.Agent.Sse.Ends.{events_end}
use micro_manus_services.Agent.Sse.Reload.{calm, over, told, events_reload}
use micro_manus_services.Ledger.Sound.{grant}
use micro_manus_services.Agent.Finalize.{fail_tx, end_run}
use micro_manus_services.Agent.Ending.{fail_tx-IsSound}
use micro_manus_services.Db.Statements.{update_credits, insert_ledger}
use micro_manus_services.Agent.Resume.{drop_incomplete}
use micro_manus_services.Uploads.Context.{context_block}
use micro_manus_services.Tests.Data.{
  sample, sample-IsSound, services, blocks, decrypted, running_run,
}
use micro_manus_services.Tests.Runs.{key, asking, result}
use micro_manus_services.Models.{claude_opus_4_8}

abbrev fragment : ℕ → Option Text → Option Text → Text → Fragment
fragment i id name args = record { index = i; id = id; name = name; arguments = some args }

abbrev piece : List Fragment → Chunk
piece fs = record { content = some (codes "a"); tool_calls = fs; usage = none }

-- Two calls whose pieces come in turns.
abbrev chunks : List Chunk
chunks =
    piece (fragment 0 (some (codes "c0")) (some (codes "f")) (codes "{") ∷ [])
    ∷ piece (
        fragment 1 (some (codes "c1")) (some (codes "g")) (codes "[")
        ∷ fragment 0 none none (codes "}")
        ∷ [])
    ∷ piece (fragment 1 none none (codes "]") ∷ [])
    ∷ []

turn_result-on_chunks_example :
    ((turn_result (on_chunks nothing_streamed chunks)).tool_calls
      ≡ keep is_complete (
          map
            (λ k. joined (of_index k (all_fragments chunks)))
            (first_seen (map (λ f. f.index) (all_fragments chunks)))))
    × ((turn_result (on_chunks nothing_streamed chunks)).text
        ≡ concat (on_chunks nothing_streamed chunks).deltas)
turn_result-on_chunks_example = turn_result-on_chunks chunks

abbrev said : ChatRole → Text → ChatMsg
said role text = record { role = role; content = text; tool_calls = none; tool_call_id = none }

abbrev request : TurnRequest
request = record {
  key_provider = KeyProvider.openrouter;
  api_key = [];
  base_url = [];
  model = codes "anthropic/claude-opus-4.8";
  system = codes "Be brief.";
  messages = said ChatRole.user (codes "Hi") ∷ said ChatRole.assistant (codes "Yes?") ∷ [];
  tools = [];
}

request_messages-marks_example :
    ((is_cacheable request ≡ false)
      × (request_messages request ≡ system_msg request.system false ∷ map to_wire request.messages))
    ⊎ ((is_cacheable request ≡ true)
        × (any side request.messages ≡ false)
        × (request_messages request
            ≡ system_msg request.system true ∷ map to_wire request.messages))
    ⊎ ((before : List ChatMsg) × (m : ChatMsg) × (after : List ChatMsg) × (is_cacheable request
          ≡ true)
        × (request.messages ≡ before ++ m ∷ after)
        × (side m ≡ true)
        × (any side after ≡ false)
        × (request_messages request
            ≡ system_msg request.system true
              ∷ (map to_wire before
                  ++ record (to_wire m) { content = ephemeral m.content } ∷ map to_wire after)))
request_messages-marks_example = request_messages-marks request

abbrev parsed : Text → Result Json
parsed t = ok Json.null

to_anthropic_messages-grouped_example :
    to_anthropic_messages parsed request.messages ≡ grouped parsed false request.messages
to_anthropic_messages-grouped_example = to_anthropic_messages-grouped parsed request.messages

-- A worker that was stopped before the second call's result.
abbrev stopped_run : RunRow
stopped_run = record running_run { steps = asking 0 ∷ result 1 ∷ asking 2 ∷ [] }

abbrev first_request : List ChatMsg
first_request =
    request_msgs services stopped_run key claude_opus_4_8 true
      (resumed_turns (context services blocks decrypted 22 stopped_run sample) stopped_run).msgs

abbrev messages_of : Result (List MessageParam) → List MessageParam
messages_of (ok ms) = ms
messages_of (err e) = []

resumed-IsPaired_example :
    IsPaired
      (map shown (with_cache_breakpoint (messages_of (to_anthropic_messages parsed first_request))))
unfolding to_anthropic_messages sort_steps drop_incomplete text_eq push_result use_blocks
    context_block
resumed-IsPaired_example =
    resumed-IsPaired services blocks decrypted 22 parsed stopped_run key claude_opus_4_8 sample true
      (messages_of (to_anthropic_messages parsed first_request)) ((λ h. refl), ((λ h. cc), tt)) refl

abbrev message : Arrival
message = live (text_delta 0 (codes "Hi"))

abbrev wait : Wait
wait = record { arrivals = message ∷ []; db = sample }

-- The run ends on the channel after the replay, and once more.
abbrev course : Course
course = record {
  left_early = false;
  for_steps = wait;
  for_status = wait;
  for_last = wait;
  later = live (run_completed 10 7 (pos 2)) ∷ message ∷ live (run_completed 10 7 (pos 2)) ∷ [];
}

abbrev connection_of : Result Connection → Connection
connection_of (ok c) = c
connection_of (err e) = record { closed = false; written = [] }

events-LastOnly_example : LastOnly (connection_of (events 1 10 sample course)).written
unfolding events steps_to_events
events-LastOnly_example =
    events-LastOnly 1 10 sample course (connection_of (events 1 10 sample course)) refl

events_end_example :
    ((connection_of (events 1 10 sample course)).closed ≡ true)
    × (any is_terminal (connection_of (events 1 10 sample course)).written ≡ true)
unfolding events steps_to_events
events_end_example =
    events_end 1 10 sample course (connection_of (events 1 10 sample course))
      (record {
        from_start = refl;
        in_steps = refl;
        in_status = refl;
        in_last = refl;
        afterwards = refl;
      })
      (inr (inr (inr refl))) refl

-- Two more steps of the sample: the run fails, and its credit is given back.
abbrev failed_run : RunRow
failed_run = record running_run { status = RunStatus.failed; error = some (codes "no key") }

abbrev failed_db : Db
failed_db = (tx (fail_tx running_run (codes "no key")) sample).1

events_reload_example :
    events 1 10 failed_db (calm failed_db (message ∷ []))
    ≡ ok
        (over (told 1 10 failed_run failed_db (message ∷ []) (run_failed 10 (codes "no key") true)))
unfolding fail_tx end_run grant update_credits ◌+ℤ◌ insert_ledger
events_reload_example =
    events_reload 1 10 failed_run failed_db (message ∷ []) (run_failed 10 (codes "no key") true)
      (fail_tx-IsSound running_run (codes "no key") sample sample-IsSound) refl refl refl
