-- ===== src/Agent/Loop.antt =====
-- The loop of `process` in src/agent/agent.processor.ts: turns of the model and the tools that they
-- ask for. `Services` holds what the worker calls and does not implement, and the choices of the
-- outside world: what others do between turns, the order in which tools finish, and the clocks.
use micro_manus_services.Base.{
  ℕ, zero, suc, ◌+◌, ◌-◌, ⊤, Bool, true, false, Option, none, some, List, [], ◌∷◌, ◌++◌, ◌==◌, Text,
  codes, length, take, any, update_where,
}
use micro_manus_services.Db.{Query, Result, ok, RunRow}
use micro_manus_services.Db.Statements.{is_run}
use micro_manus_services.Llm.Types.{Json, Members, ToolCall, ToolDef, ChatMsg, ChatRole, TurnResult}
use micro_manus_services.Llm.Service.{ResolvedKey}
use micro_manus_services.Models.{ModelEntry}
use micro_manus_services.RunEvents.{
  RunStep, LlmStep, ToolStep, llm, tool, Source, RunEvent, text_delta, token_usage, cost_updated,
  tool_started, tool_finished, artifact_events,
}
use micro_manus_services.Agent.Resume.{step_message}
use micro_manus_services.Usage.Cost.{record_usage, thread_cost}
use micro_manus_services.World.{World, Action, pure, gets, on_db, ◌>>=◌, ◌>>◌, await, publish}

abbrev pub max_iterations : ℕ
max_iterations = 12

abbrev pub tool_content_cap : ℕ
tool_content_cap = 12000

-- What a tool returns (src/tools/tool.types.ts).
pub record ToolOutput : Type 0 where
  pub content : Text
  pub summary : Text
  pub artifact_id : Option ℕ
  pub artifact_type : Option Text
  pub artifact_title : Option Text
  pub sources : Option (List Source)

-- `stream` is a turn of the model with or without tools (`LlmService.streamTurn`), `execute` is
-- `ToolRegistry.execute`, which throws nothing, `parse` is `JSON.parse`, `schedule` is the order in
-- which concurrent tools finish, and `others` is what happens before a turn's check for
-- cancellation.
pub record Services : Type 0 where
  pub stream :
      ResolvedKey → ModelEntry → List ChatMsg → List ToolDef → List Text × Result TurnResult
  pub defs : List ToolDef
  pub execute : RunRow → ToolCall → World → ToolOutput × World
  pub parse : Text → Option Json
  pub schedule : List (ℕ × ToolCall) → List (ℕ × ToolCall)
  pub others : ℕ → World → World
  pub clock : ℕ → ℕ
  pub duration : ℕ → ℕ

-- The variables of the loop.
pub record Turns : Type 0 where
  pub msgs : List ChatMsg
  pub steps : List RunStep
  pub run_cost : ℕ
  pub iteration : ℕ

-- How the loop ends: cancelled, or with a text and the run's cost.
pub data Ended : Type 0 where
  cancelled_by_user : Ended
  finished : (text : Text) (run_cost : ℕ) → Ended

pub data Turned : Type 0 where
  stop : Ended → Turned
  go_on : Turns → Turned

-- UPDATE runs SET steps = steps || step WHERE id = $1
abbrev pub add_step : RunStep → RunRow → RunRow
add_step s r = record r { steps = r.steps ++ s ∷ [] }

unfoldable pub persist_step : ℕ → RunStep → Query ⊤
persist_step run s d = (ok tt, record d { runs = update_where (is_run run) (add_step s) d.runs })

-- `tc.args || '{}'`
abbrev pub args_text : Text → Text
args_text [] = codes "{}"
args_text (c ∷ cs) = c ∷ cs

abbrev pub empty_object : Json
empty_object = Json.obj Members.end

abbrev pub json_or_empty : Option Json → Json
json_or_empty none = empty_object
json_or_empty (some j) = j

abbrev pub publish_all : ℕ → List RunEvent → Action ⊤
publish_all run [] = pure tt
publish_all run (e ∷ es) = publish run e >> publish_all run es

abbrev pub number_calls : ℕ → List ToolCall → List (ℕ × ToolCall)
number_calls i [] = []
number_calls i (c ∷ cs) = (i, c) ∷ number_calls (suc i) cs

abbrev pub final_request : ChatMsg
final_request = record {
  role = ChatRole.user;
  content =
      codes "[system] Tool budget exhausted — write your final answer now with what you have.";
  tool_calls = none;
  tool_call_id = none;
}

module _ (sv : Services) (r : RunRow) (key : ResolvedKey) (m : ModelEntry) where
  open sv use {stream, defs, execute, parse, schedule, others, clock, duration}

  abbrev pub tool_step : ℕ → ToolCall → ToolOutput → ToolStep
  tool_step i tc out = record {
    i = i;
    call_id = tc.id;
    tool = tc.name;
    args = json_or_empty (parse (args_text tc.args));
    content = take tool_content_cap out.content;
    summary = out.summary;
    duration_ms = duration i;
    artifact_id = out.artifact_id;
    artifact_type = out.artifact_type;
    artifact_title = out.artifact_title;
    sources = out.sources;
    at = clock i;
  }

  abbrev pub run_tool : ToolCall → Action ToolOutput
  run_tool tc w = let (out, w') = execute r tc w in (ok out, w')

  abbrev pub push_step : Turns → RunStep → Turns
  push_step t s = record t { msgs = t.msgs ++ step_message s ∷ []; steps = t.steps ++ s ∷ [] }

  -- One tool, from its call to its message.
  unfoldable pub finish_tool : ℕ × ToolCall → Turns → Action Turns
  unfolding persist_step
  finish_tool (i, tc) t = do
    out ← run_tool tc
    persisted ← on_db (persist_step r.id (tool (tool_step i tc out)))
    publish r.id (tool_finished i tc.name out.summary (duration i) out.sources)
    publish_all r.id
        (artifact_events out.artifact_id out.artifact_type out.artifact_title out.summary)
    pure (push_step t (tool (tool_step i tc out)))

  unfoldable pub finish_tools : List (ℕ × ToolCall) → Turns → Action Turns
  unfolding finish_tool
  finish_tools [] t = pure t
  finish_tools (c ∷ cs) t = finish_tool c t >>= λ t'. finish_tools cs t'

  abbrev pub start_events : List (ℕ × ToolCall) → List RunEvent
  start_events [] = []
  start_events ((i, tc) ∷ cs) =
      tool_started i tc.name (json_or_empty (parse (args_text tc.args))) ∷ start_events cs

  -- The tools of a turn: all are started in order, and they finish as the schedule says.
  unfoldable pub run_tools : ℕ → List ToolCall → Turns → Action Turns
  unfolding finish_tools
  run_tools first calls t = do
    publish_all r.id (start_events (number_calls first calls))
    finish_tools (schedule (number_calls first calls)) t

  abbrev pub llm_step : ℕ → TurnResult → ℕ → LlmStep
  llm_step i res c = record {
    i = i;
    text = res.text;
    tool_calls = res.tool_calls;
    usage = res.usage;
    cost_usd = c;
    at = clock i;
  }

  abbrev pub lift_result : {A : Type 0} → Result A → Action A
  lift_result x w = (x, w)

  abbrev pub delta_events : ℕ → List Text → List RunEvent
  delta_events i [] = []
  delta_events i (d ∷ ds) = text_delta i d ∷ delta_events i ds

  abbrev pub bump : Turns → Turns
  bump t = record t { iteration = suc t.iteration }

  -- The end of a turn: no tool call means that its text is the answer.
  abbrev pub close_turn : TurnResult → List ToolCall → Turns → Action Turned
  close_turn res [] t = pure (stop (finished res.text t.run_cost))
  close_turn res (c ∷ cs) t = do t' ← run_tools (length t.steps) (c ∷ cs) t; pure (go_on (bump t'))

  abbrev pub request_msgs : Bool → List ChatMsg → List ChatMsg
  request_msgs true msgs = msgs ++ final_request ∷ []
  request_msgs false msgs = msgs

  abbrev pub request_tools : Bool → List ToolDef
  request_tools true = []
  request_tools false = defs

  -- What a turn does with the model's result.
  unfoldable pub after_stream : Turns → TurnResult → Action Turned
  unfolding run_tools persist_step
  after_stream t res = do
    c ← on_db (record_usage r.user_id r.thread_id r.id r.model_id res.usage)
    persisted ← on_db (persist_step r.id (llm (llm_step (length t.steps) res c)))
    publish r.id (token_usage (length t.steps) res.usage)
    total ← gets (λ w. thread_cost r.thread_id w.db)
    publish r.id (cost_updated (t.run_cost + c) total)
    close_turn res res.tool_calls
        (record (push_step t (llm (llm_step (length t.steps) res c))) { run_cost = t.run_cost + c })

  -- One turn after the check for cancellation; the last turn offers no tools.
  unfoldable pub take_turn : Turns → Action Turned
  unfolding after_stream
  take_turn t =
      let final = t.iteration == max_iterations - 1 in
      let (deltas, answer) = stream key m (request_msgs final t.msgs) (request_tools final) in
      do
        publish_all r.id (delta_events (length t.steps) deltas)
        res ← lift_result answer
        after_stream t res

  -- What comes after a turn, and after the check for cancellation.
  abbrev pub after_turn : (Turns → Action Ended) → Turned → Action Ended
  after_turn next (stop e) = pure e
  after_turn next (go_on t) = next t

  abbrev pub unless_cancelled : Bool → Action Ended → Action Ended
  unless_cancelled true next = pure cancelled_by_user
  unless_cancelled false next = next

  abbrev pub is_cancelled : World → Bool
  is_cancelled w = any (λ x. x == r.id) w.cancelled

  -- `while (iteration < MAX_ITERATIONS)`, by the turns that are left.
  unfoldable pub turns : ℕ → Turns → Action Ended
  unfolding take_turn
  turns zero t = pure (finished [] t.run_cost)
  turns (suc k) t = do
    await (others t.iteration)
    flag ← gets is_cancelled
    unless_cancelled flag (take_turn t >>= after_turn (turns k))
