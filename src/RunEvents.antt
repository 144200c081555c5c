-- ===== src/RunEvents.antt =====
-- src/agent/run-events.ts: the persisted steps of a run, the events sent to a browser, and the
-- replay of the one as the other. Costs are in units of 10⁻⁸ US dollars.
pub mod Replay
use micro_manus_services.Base.{
  ℕ, Bool, Option, none, some, List, [], ◌∷◌, ◌++◌, Text, leb, codes, if◌then◌else◌,
}
use micro_manus_services.Base.Int.{ℤ}
use micro_manus_services.Llm.Types.{Json, ToolCall, NormUsage}

pub record Source : Type 0 where
  pub title : Text
  pub url : Text
  pub domain : Text

pub record LlmStep : Type 0 where
  pub i : ℕ
  pub text : Text
  pub tool_calls : List ToolCall
  pub usage : NormUsage
  pub cost_usd : ℕ
  pub at : ℕ

pub record ToolStep : Type 0 where
  pub i : ℕ
  pub call_id : Text
  pub tool : Text
  pub args : Json
  pub content : Text
  pub summary : Text
  pub duration_ms : ℕ
  pub artifact_id : Option ℕ
  pub artifact_type : Option Text
  pub artifact_title : Option Text
  pub sources : Option (List Source)
  pub at : ℕ

pub data RunStep : Type 0 where
  llm : LlmStep → RunStep
  tool : ToolStep → RunStep

pub data RunEvent : Type 0 where
  run_started : (run_id thread_id : ℕ) (model_id : Text) → RunEvent
  text_delta : (step_index : ℕ) (delta : Text) → RunEvent
  tool_started : (step_index : ℕ) (tool : Text) (args : Json) → RunEvent
  tool_finished :
      (step_index : ℕ) (tool summary : Text) (duration_ms : ℕ) (sources : Option (List Source))
      → RunEvent
  token_usage : (step_index : ℕ) (usage : NormUsage) → RunEvent
  cost_updated : (run_cost_usd thread_cost_usd : ℕ) → RunEvent
  artifact_created : (artifact_id : ℕ) (type title : Text) → RunEvent
  run_completed : (run_id cost_usd : ℕ) (credits : ℤ) → RunEvent
  run_failed : (run_id : ℕ) (error : Text) (credit_refunded : Bool) → RunEvent

abbrev pub index : RunStep → ℕ
index (llm s) = s.i
index (tool s) = s.i

-- `[...steps].sort((a, b) => a.i - b.i)`: a stable sort by index. A step goes behind those before
-- it in the list whose index is not greater.
unfoldable pub insert_step : RunStep → List RunStep → List RunStep
insert_step s [] = s ∷ []
insert_step s (t ∷ ts) = if leb (index s) (index t) then s ∷ t ∷ ts else t ∷ insert_step s ts

unfoldable pub sort_steps : List RunStep → List RunStep
unfolding insert_step
sort_steps [] = []
sort_steps (s ∷ ss) = insert_step s (sort_steps ss)

abbrev pub get_or : Option Text → Text → Text
get_or none t = t
get_or (some s) t = s

-- `if (s.text) events.push(…)`: the empty text is falsy.
abbrev text_events : ℕ → Text → List RunEvent
text_events i [] = []
text_events i (c ∷ cs) = text_delta i (c ∷ cs) ∷ []

abbrev pub artifact_events : Option ℕ → Option Text → Option Text → Text → List RunEvent
artifact_events none type title summary = []
artifact_events (some a) type title summary =
    artifact_created a (get_or type (codes "md")) (get_or title summary) ∷ []

unfoldable pub step_events : RunStep → List RunEvent
step_events (llm s) = text_events s.i s.text ++ token_usage s.i s.usage ∷ []
step_events (tool s) =
    tool_started s.i s.tool s.args
    ∷ tool_finished s.i s.tool s.summary s.duration_ms s.sources
    ∷ artifact_events s.artifact_id s.artifact_type s.artifact_title s.summary

-- The loop of `stepsToEvents`, over the sorted steps.
unfoldable pub events_from : List RunStep → List RunEvent
unfolding step_events
events_from [] = []
events_from (s ∷ ss) = step_events s ++ events_from ss

unfoldable pub steps_to_events : List RunStep → List RunEvent
unfolding sort_steps events_from
steps_to_events ss = events_from (sort_steps ss)
