-- ===== src/Memory.antt =====
-- src/memory: the summaries that stand for the old messages of a thread (`SummarizeProcessor`), and
-- what a new question finds of them (`MemoryService`). The embedding service and the order by
-- distance that pgvector gives are parameters, as is whether the service is configured (`enabled`).
pub mod Blocks
pub mod Archive
pub mod Retrieval
use micro_manus_services.Base.{
  ℕ, zero, suc, ◌+◌, ◌-◌, ◌*◌, ◌/◌, ◌%◌, ◌≤◌, ◌<◌, max, String, ⊤, ◌≡◌, refl, sym, ap, ◌∙◌, ◌≢◌,
  ◌⊎◌, inl, inr, Bool, true, false, not, ◌&&◌, ◌||◌, Option, none, some, List, [], ◌∷◌, ◌++◌, map,
  reverse, arith, ltb, leb, ◌==◌, if◌then◌else◌, ltb→lt, lt→ltb, leb→le, ==_iff, tests, Bool-cases,
  Option-cases, is_some, Text, codes, length, take, drop, head?, last?, keep, find, any, all,
  update_where, update_where-none, length-append, length-take-le, All, All-append, All-map, text_eq,
}
use micro_manus_services.Db.{Db, Query, Result, ok, err, pg, SqlState, MessageRow, SummaryRow, tx}
use micro_manus_services.Db.Statements.{is_thread}
use micro_manus_services.Llm.Types.{ChatRole, ChatMsg, ToolDef, TurnResult}
use micro_manus_services.Llm.Service.{ResolvedKey, resolve_key}
use micro_manus_services.Base.Chars.{trim}
use micro_manus_services.Models.{ModelEntry, get_model}
use micro_manus_services.World.{World, SummarizeJob, Action, pure, gets, on_db, await, ◌>>=◌, ◌>>◌}

-- `Math.ceil(chars / 4)`
abbrev pub estimate_tokens : ℕ → ℕ
estimate_tokens chars = (chars + 3) / 4

abbrev pub trigger_tokens : ℕ
trigger_tokens = 60_000

abbrev pub block_tokens : ℕ
block_tokens = 30_000

abbrev pub keep_recent : ℕ
keep_recent = 15

-- role IN ('user', 'assistant')
abbrev pub is_spoken : ChatRole → Bool
is_spoken ChatRole.user = true
is_spoken ChatRole.assistant = true
is_spoken ChatRole.tool = false

abbrev pub is_open : ℕ → MessageRow → Bool
is_open thread m = m.thread_id == thread && (not m.archived && is_spoken m.role)

-- The query's rows, oldest first.
unfoldable pub open_messages : ℕ → Db → List MessageRow
open_messages thread d = reverse (keep (is_open thread) d.messages)

abbrev pub sum_lengths : List MessageRow → ℕ
sum_lengths [] = 0
sum_lengths (m ∷ ms) = length m.content + sum_lengths ms

-- The oldest messages up to the first at which the budget is spent; `tokens` is `blockTokens`.
unfoldable pub block_from : ℕ → List MessageRow → List MessageRow
block_from tokens [] = []
block_from tokens (m ∷ ms) =
    if leb block_tokens tokens
    then []
    else m ∷ block_from (tokens + estimate_tokens (length m.content)) ms

unfoldable pub block_of : List MessageRow → List MessageRow
unfolding block_from
block_of msgs = block_from 0 (take (length msgs - keep_recent) msgs)

abbrev pub role_name : ChatRole → Text
role_name ChatRole.user = codes "user"
role_name ChatRole.assistant = codes "assistant"
role_name ChatRole.tool = codes "tool"

abbrev pub line_of : ℕ → MessageRow → Text
line_of cap m = role_name m.role ++ (codes ": " ++ take cap m.content)

-- `.join('\n\n')`
unfoldable pub transcript : List MessageRow → Text
transcript [] = []
transcript (m ∷ []) = line_of 2000 m
transcript (m ∷ n ∷ ms) = line_of 2000 m ++ (10 ∷ 10 ∷ transcript (n ∷ ms))

abbrev pub summary_prompt : Text
summary_prompt =
    codes
      "Summarize this conversation excerpt for long-term memory. Preserve: decisions made, key facts and figures, names, dates, open questions, and what the user cares about. Be specific — this summary is the only record once the originals are archived. Max ~500 words. Output only the summary."

-- INSERT INTO summaries
unfoldable pub insert_summary : SummaryRow → Query ⊤
insert_summary s d =
    if any (is_thread s.thread_id) d.threads
    then (ok tt, record d { summaries = s ∷ d.summaries })
    else (err (pg SqlState.foreign_key_violation), d)

abbrev pub among : List MessageRow → MessageRow → Bool
among block m = any (λ b. b.id == m.id) block

abbrev pub archive : MessageRow → MessageRow
archive m = record m { archived = true }

-- UPDATE messages SET archived = true WHERE id = ANY($1)
unfoldable pub archive_messages : List MessageRow → Query ⊤
archive_messages block d =
    (ok tt, record d { messages = update_where (among block) archive d.messages })

abbrev pub then_query : {A : Type 0} → Query A → Result ⊤ × Db → Result A × Db
then_query q (ok a, d) = q d
then_query q (err e, d) = (err e, d)

unfoldable pub archive_tx : SummaryRow → List MessageRow → Query ⊤
unfolding insert_summary archive_messages
archive_tx s block d = then_query (archive_messages block) (insert_summary s d)

-- `block[0].id` and `block[block.length - 1].id`, of a block of at least two.
abbrev pub last_id : ℕ → List MessageRow → ℕ
last_id id [] = id
last_id id (m ∷ ms) = last_id m.id ms

abbrev pub summary_row : ℕ → Text → Text → MessageRow → List MessageRow → SummaryRow
summary_row thread content vector first rest = record {
  thread_id = thread;
  content = content;
  embedding = vector;
  first_message_id = first.id;
  last_message_id = last_id first.id rest;
}

-- What the processor calls: decryption, the model, the embedding of a text as a vector literal, and
-- what others do to the world while it waits.
pub record Helpers : Type 0 where
  pub enabled : Bool
  pub decrypt : Text → Result Text
  pub stream_turn :
      ResolvedKey → ModelEntry → Text → List ChatMsg → List ToolDef → Result TurnResult
  pub embed : Text → Result Text
  pub others : ℕ → World → World

abbrev pub lifted : {A : Type 0} → Result A → Action A
lifted r w = (r, w)

module _ (hp : Helpers) (j : SummarizeJob) where
  abbrev pub request : List MessageRow → List ChatMsg
  unfolding transcript
  request block =
      (record {
        role = ChatRole.user;
        content = transcript block;
        tool_calls = none;
        tool_call_id = none;
      })
      ∷ []

  -- With a summary of the block in hand.
  abbrev pub keep_summary : MessageRow → List MessageRow → Text → Action ⊤
  unfolding archive_tx
  keep_summary first rest [] = pure tt
  keep_summary first rest (c ∷ cs) = do
    vector ← lifted (hp.embed (c ∷ cs))
    await (hp.others 1)
    on_db (tx (archive_tx (summary_row j.thread_id (c ∷ cs) vector first rest) (first ∷ rest)))

  abbrev pub after_key : MessageRow → List MessageRow → ModelEntry → ResolvedKey → Action ⊤
  unfolding keep_summary request
  after_key first rest m key = do
    result ← lifted (hp.stream_turn key m summary_prompt (request (first ∷ rest)) [])
    keep_summary first rest (trim result.text)

  abbrev pub with_entry : MessageRow → List MessageRow → Option ModelEntry → Action ⊤
  unfolding after_key
  with_entry first rest none = pure tt
  with_entry first rest (some m) = do
    key ← on_db (resolve_key hp.decrypt j.user_id m)
    after_key first rest m key

  -- `if (block.length < 2) return`
  abbrev pub with_block : List MessageRow → Action ⊤
  unfolding with_entry
  with_block [] = pure tt
  with_block (m ∷ []) = pure tt
  with_block (m ∷ n ∷ ms) = with_entry m (n ∷ ms) (get_model j.model_id)

  unfoldable pub with_messages : List MessageRow → Action ⊤
  unfolding with_block block_of
  with_messages msgs =
      if ltb (estimate_tokens (sum_lengths msgs)) trigger_tokens
      then pure tt
      else with_block (block_of msgs)

  abbrev pub enabled_run : Action ⊤
  unfolding with_messages open_messages
  enabled_run = do
    msgs ← gets (λ w. open_messages j.thread_id w.db)
    await (hp.others 0)
    with_messages msgs

  -- `if (!memoryEnabled()) return`
  unfoldable pub summarize : Action ⊤
  unfolding with_messages open_messages
  summarize w = if hp.enabled then enabled_run w else pure tt w
