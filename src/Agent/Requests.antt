-- ===== src/Agent/Requests.antt =====
-- The requests of a resumed run (src/agent/agent.processor.ts) as src/llm/anthropic.provider.ts
-- sends them: what the API of Anthropic wants of tool calls and their results.
use micro_manus_services.Base.{
  keep, ◌≡◌, refl, Bool, true, false, Option, none, some, List, [], ◌∷◌, ◌++◌, map, arith, Text,
  all, All, ℕ,
}
use mathlib.Core.List.{append_assoc, append-nil, reverse}
use mathlib.Core.Path.{subst, sym, ◌∙◌}
use micro_manus_services.Keys.Accepted.{injected}
use micro_manus_services.Db.{Result, ok, err, MessageRow, Db, RunRow}
use micro_manus_services.RunEvents.{RunStep, llm, tool, sort_steps}
use micro_manus_services.Llm.Types.{Json, ChatRole, ToolCall, ChatMsg}
use micro_manus_services.Llm.Anthropic.{MessageParam, with_cache_breakpoint, to_anthropic_messages}
use micro_manus_services.Llm.Anthropic.Groups.{results_run, to_anthropic_messages-grouped}
use micro_manus_services.Agent.Rounds.{drop_incomplete-Answered, round, Answered, AnsweredButLast}
use micro_manus_services.Models.{ModelEntry}
use micro_manus_services.Llm.Service.{ResolvedKey}
use micro_manus_services.Agent.Loop.{Services, final_request, request_msgs}
use micro_manus_services.Agent.Resume.{
  resolves, all_resolved, drop_incomplete, step_message, calls_or_none,
}
use micro_manus_services.Agent.Process.{
  Blocks, context, resumed_turns, history_message, unshift_block, history, question_of, in_history,
}
use micro_manus_services.Llm.Anthropic.Pairs.{
  shown, IsPaired, breakpoint-shown, replied, calls_replied, Replied, Yields, Paired,
  grouped-Paired,
}
use micro_manus_services.Uploads.Context.{context_block}

resolves-replied :
    (ss : List RunStep) (tail : List ChatMsg) (id : Text)
    → resolves (round ss) id ≡ true
    → replied (map step_message ss ++ tail) id ≡ true
unfolding results_run
resolves-replied [] tail id h = cc
resolves-replied (llm l ∷ ss) tail id h = cc
resolves-replied (tool t ∷ ss) tail id h = ground (arith, resolves-replied ss tail id)

all-replied :
    (ss : List RunStep) (tail : List ChatMsg) (ts : List ToolCall)
    → all_resolved ts (round ss) ≡ true
    → all (λ c. replied (map step_message ss ++ tail) c.id) ts ≡ true
all-replied ss tail [] h = refl
all-replied ss tail (t ∷ ts) h =
    ground (arith, resolves-replied ss tail t.id, all-replied ss tail ts)

calls-replied :
    (ss : List RunStep) (tail : List ChatMsg) (ts : List ToolCall)
    → all_resolved ts (round ss) ≡ true
    → calls_replied ChatRole.assistant (calls_or_none ts) (map step_message ss ++ tail) ≡ true
calls-replied ss tail [] h = refl
calls-replied ss tail (t ∷ ts) h = all-replied ss tail (t ∷ ts) h

steps-Replied :
    (ss : List RunStep) (tail : List ChatMsg)
    → Answered ss
    → Replied tail
    → Replied (map step_message ss ++ tail)
steps-Replied [] tail h q = q
steps-Replied (llm l ∷ ss) tail h q =
    (calls-replied ss tail l.tool_calls h.0, steps-Replied ss tail h.1 q)
steps-Replied (tool t ∷ ss) tail h q = (refl, steps-Replied ss tail h q)

-- Messages that ask for no tool.
abbrev NoCalls : ChatMsg → Type 0
NoCalls m = m.tool_calls ≡ none

calls_replied-none : (r : ChatRole) (ms : List ChatMsg) → calls_replied r none ms ≡ true
calls_replied-none ChatRole.user ms = refl
calls_replied-none ChatRole.assistant ms = refl
calls_replied-none ChatRole.tool ms = refl

plain-Replied : (ms tail : List ChatMsg) → All NoCalls ms → Replied tail → Replied (ms ++ tail)
plain-Replied [] tail h q = q
plain-Replied (m ∷ ms) tail h q =
    (rw h.0 (calls_replied-none m.role _), plain-Replied ms tail h.1 q)

rows-NoCalls : (ms : List MessageRow) → All NoCalls (map history_message ms)
rows-NoCalls [] = tt
rows-NoCalls (m ∷ ms) = (refl, rows-NoCalls ms)

unshift-NoCalls :
    (b : Option Text) (ms : List ChatMsg) → All NoCalls ms → All NoCalls (unshift_block b ms)
unshift-NoCalls none ms h = h
unshift-NoCalls (some []) ms h = h
unshift-NoCalls (some (c ∷ cs)) ms h = (refl, h)

ok-Paired :
    (r : Result (List MessageParam)) (ms : List MessageParam)
    → r ≡ ok ms
    → Yields Paired r
    → Paired ms
unfolding Yields
ok-Paired (ok ns) ms e p = subst Paired (injected e) p
ok-Paired (err x) ms e p = cc

final-Replied :
    (ms : List ChatMsg) (ss : List RunStep) (sv : Services) (r : RunRow) (key : ResolvedKey)
    (m : ModelEntry) (final : Bool)
    → All NoCalls ms
    → Answered ss
    → Replied (request_msgs sv r key m final (ms ++ map step_message ss))
final-Replied ms ss sv r key m true h a =
    rw (append_assoc ms (map step_message ss) (final_request ∷ []))
      (plain-Replied ms _ h (steps-Replied ss (final_request ∷ []) a (refl, tt)))
final-Replied ms ss sv r key m false h a =
    plain-Replied ms (map step_message ss) h
      (rw (← append-nil (map step_message ss)) (steps-Replied ss [] a tt))

module _ (sv : Services) (bl : Blocks) (decrypt : Text → Result Text) (message : ℕ) where
  context-NoCalls : (r : RunRow) (d : Db) → All NoCalls (context sv bl decrypt message r d)
  context-NoCalls r d = unshift-NoCalls (context_block r.thread_id d) (unshift_block memory past) (
      unshift-NoCalls memory past
        (rows-NoCalls (reverse (keep (in_history r.thread_id) d.messages))))
    where
      past : List ChatMsg
      past = history r.thread_id d

      memory : Option Text
      memory = bl.memory_block r.thread_id (question_of past) d

  -- Where every round of a run's persisted steps but the last one has the results of its tool
  -- calls, the requests that a resumed run starts with are well formed for Anthropic: if the
  -- arguments of all calls parse, each `tool_use` block has its result in the message behind it,
  -- which is the user's. So it is for the first turn with tools and for a last turn, which asks for
  -- the answer.
  pub resumed-IsPaired :
      (parse : Text → Result Json) (r : RunRow) (key : ResolvedKey) (m : ModelEntry) (d : Db)
      (final : Bool) (ms : List MessageParam)
      → AnsweredButLast (sort_steps r.steps)
      → to_anthropic_messages parse
          (request_msgs sv r key m final (resumed_turns (context sv bl decrypt message r d) r).msgs)
        ≡ ok ms
      → IsPaired (map shown (with_cache_breakpoint ms))
  unfolding Paired
  resumed-IsPaired parse r key m d final ms h e = rw (breakpoint-shown ms) (
      ok-Paired _ ms (sym (to_anthropic_messages-grouped parse _) ∙ e) (
        grouped-Paired parse false _ (
          final-Replied (context sv bl decrypt message r d) (drop_incomplete (sort_steps r.steps))
            sv r key m final (context-NoCalls r d) (drop_incomplete-Answered _ h))))
