-- ===== src/Agent/Resume.antt =====
-- `dropIncompleteTrailingRound` of src/agent/agent.processor.ts, and the messages that a resumed
-- run rebuilds from its persisted steps.
use micro_manus_services.Base.{
  Bool, false, ◌||◌, Option, none, some, List, [], ◌∷◌, if◌then◌else◌, Text, all, text_eq,
}
use micro_manus_services.Llm.Types.{ToolCall, ChatMsg, ChatRole}
use micro_manus_services.RunEvents.{RunStep, LlmStep, llm, tool}

abbrev pub extend_split :
    RunStep
    → List RunStep
    → Option (List RunStep × LlmStep × List RunStep)
    → Option (List RunStep × LlmStep × List RunStep)
extend_split s ss (some (before, l, after)) = some (s ∷ before, l, after)
extend_split (llm l) ss none = some ([], l, ss)
extend_split (tool t) ss none = none

-- The steps before the last `llm` step, that step, and those behind it.
unfoldable pub split_last : List RunStep → Option (List RunStep × LlmStep × List RunStep)
split_last [] = none
split_last (s ∷ ss) = extend_split s ss (split_last ss)

-- `resolved.has(id)`
abbrev pub resolves : List RunStep → Text → Bool
resolves [] id = false
resolves (llm l ∷ ss) id = resolves ss id
resolves (tool t ∷ ss) id = text_eq t.call_id id || resolves ss id

abbrev pub all_resolved : List ToolCall → List RunStep → Bool
all_resolved calls after = all (λ c. resolves after c.id) calls

abbrev pub cut : List RunStep → Option (List RunStep × LlmStep × List RunStep) → List RunStep
cut steps none = steps
cut steps (some (before, l, after)) = if all_resolved l.tool_calls after then steps else before

-- A step that asked for no tool has all its calls resolved, so the test for it is the same test.
unfoldable pub drop_incomplete : List RunStep → List RunStep
unfolding split_last
drop_incomplete steps = cut steps (split_last steps)

-- `toolCalls.length ? toolCalls : undefined`
abbrev pub calls_or_none : List ToolCall → Option (List ToolCall)
calls_or_none [] = none
calls_or_none (c ∷ cs) = some (c ∷ cs)

abbrev pub step_message : RunStep → ChatMsg
step_message (llm s) = record {
  role = ChatRole.assistant;
  content = s.text;
  tool_calls = calls_or_none s.tool_calls;
  tool_call_id = none;
}
step_message (tool s) = record {
  role = ChatRole.tool;
  content = s.content;
  tool_calls = none;
  tool_call_id = some s.call_id;
}
