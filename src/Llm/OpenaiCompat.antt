-- ===== src/Llm/OpenaiCompat.antt =====
-- src/llm/openai-compat.provider.ts: the request that OpenAI, Moonshot, Groq and OpenRouter take,
-- and the reading of their streams. What the SDK of OpenAI sends and receives is a parameter.
pub mod Request
use micro_manus_services.Base.{
  ℕ, zero, suc, ◌+◌, ◌-◌, ◌*◌, ◌/◌, ◌%◌, ◌≤◌, ◌<◌, max, String, ⊤, ◌≡◌, refl, sym, ap, ◌∙◌, ◌≢◌,
  ◌⊎◌, inl, inr, Bool, true, false, not, ◌&&◌, ◌||◌, Option, none, some, List, [], ◌∷◌, ◌++◌, map,
  reverse, arith, ltb, leb, ◌==◌, if◌then◌else◌, ltb→lt, lt→ltb, leb→le, ==_iff, tests, Bool-cases,
  Option-cases, is_some, Text, codes, length, take, drop, head?, last?, keep, find, any, all,
  update_where, update_where-none, length-append, length-take-le, All, All-append, All-map, text_eq,
}
use micro_manus_services.Db.{Result, ok, err, Error, KeyProvider, provider_eq}
use micro_manus_services.Llm.Types.{ChatRole, ToolCall, ToolDef, ChatMsg, TurnResult, NormUsage}
use micro_manus_services.Llm.Service.{TurnRequest}
use micro_manus_services.Llm.Chunks.{
  Fragment, CompletionUsage, Chunk, Streamed, get_call, set_call, no_call, call_or_new, replaced,
  extended, with_fragment, on_fragments, published, or_last, on_chunk, on_chunks, nothing_streamed,
  is_text, is_complete, call_of, or_zero, norm_usage, turn_result,
}

-- `{ type: 'text', text, cache_control }`; `cached` where the last property is set.
pub record TextBlock : Type 0 where
  pub text : Text
  pub cached : Bool

pub data Content : Type 0 where
  null : Content
  plain : Text → Content
  blocks : List TextBlock → Content

pub data WireRole : Type 0 where
  system user assistant tool : WireRole

-- `tool_calls` and `tool_call_id` are `none` where the property is missing.
pub record WireMsg : Type 0 where
  pub role : WireRole
  pub content : Content
  pub tool_calls : Option (List ToolCall)
  pub tool_call_id : Option Text

abbrev pub ephemeral : Text → Content
ephemeral t = blocks (record { text = t; cached = true } ∷ [])

unfoldable pub system_msg : Text → Bool → WireMsg
system_msg text cacheable = record {
  role = WireRole.system;
  content = if cacheable then ephemeral text else plain text;
  tool_calls = none;
  tool_call_id = none;
}

-- `m.content || null`
abbrev pub or_null : Text → Content
or_null [] = null
or_null (c ∷ cs) = plain (c ∷ cs)

abbrev pub role_of : ChatRole → WireRole
role_of ChatRole.user = WireRole.user
role_of ChatRole.assistant = WireRole.assistant
role_of ChatRole.tool = WireRole.tool

abbrev pub simple_msg : WireRole → Text → WireMsg
simple_msg role text = record {
  role = role;
  content = plain text;
  tool_calls = none;
  tool_call_id = none;
}

abbrev wire_by : ChatRole → Option (List ToolCall) → ChatMsg → WireMsg
wire_by ChatRole.assistant (some (t ∷ ts)) m = record {
  role = WireRole.assistant;
  content = or_null m.content;
  tool_calls = some (t ∷ ts);
  tool_call_id = none;
}
wire_by ChatRole.assistant (some []) m = simple_msg WireRole.assistant m.content
wire_by ChatRole.assistant none m = simple_msg WireRole.assistant m.content
wire_by ChatRole.tool calls m = record {
  role = WireRole.tool;
  content = plain m.content;
  tool_calls = none;
  tool_call_id = m.tool_call_id;
}
wire_by ChatRole.user calls m = simple_msg WireRole.user m.content

unfoldable pub to_wire : ChatMsg → WireMsg
to_wire m = wire_by m.role m.tool_calls m

-- `m.content as string`, which is unchecked: the messages it is applied to have plain content.
abbrev pub as_text : Content → Text
as_text null = []
as_text (plain t) = t
as_text (blocks bs) = []

abbrev pub mark : WireMsg → WireMsg
mark m = record m { content = ephemeral (as_text m.content) }

abbrev pub is_user_side : WireRole → Bool
is_user_side WireRole.user = true
is_user_side WireRole.tool = true
is_user_side WireRole.system = false
is_user_side WireRole.assistant = false

-- The loop of `markLastUserBlock`, over the messages from the newest.
pub mark_newest : List WireMsg → List WireMsg
mark_newest [] = []
mark_newest (m ∷ ms) = if is_user_side m.role then mark m ∷ ms else m ∷ mark_newest ms

-- It stops before the first message.
unfoldable pub mark_last_user_block : List WireMsg → List WireMsg
unfolding mark_newest
mark_last_user_block [] = []
mark_last_user_block (m ∷ ms) = m ∷ reverse (mark_newest (reverse ms))

pub starts_with : Text → Text → Bool
starts_with [] s = true
starts_with (c ∷ cs) [] = false
starts_with (c ∷ cs) (x ∷ xs) = c == x && starts_with cs xs

abbrev pub is_cacheable : TurnRequest → Bool
unfolding starts_with
is_cacheable req =
    provider_eq req.key_provider KeyProvider.openrouter
    && starts_with (codes "anthropic/") req.model

unfoldable pub request_messages : TurnRequest → List WireMsg
unfolding system_msg to_wire mark_last_user_block
request_messages req =
    let messages = system_msg req.system (is_cacheable req) ∷ map to_wire req.messages in
    if is_cacheable req then mark_last_user_block messages else messages

-- The property that bounds the answer, with `reasoning_effort: 'none'` beside the first.
pub data Cap : Type 0 where
  max_completion_tokens max_tokens : ℕ → Cap

pub record CompletionRequest : Type 0 where
  pub api_key : Text
  pub base_url : Text
  pub model : Text
  pub cap : Cap
  pub messages : List WireMsg
  pub tools : Option (List ToolDef)

abbrev pub tools_or_undefined : List ToolDef → Option (List ToolDef)
tools_or_undefined [] = none
tools_or_undefined (t ∷ ts) = some (t ∷ ts)

abbrev pub cap_for : KeyProvider → Cap
cap_for p =
    if provider_eq p KeyProvider.openai then max_completion_tokens 16_000 else max_tokens 16_000

unfoldable pub completion_request : TurnRequest → CompletionRequest
unfolding request_messages
completion_request req = record {
  api_key = req.api_key;
  base_url = req.base_url;
  model = req.model;
  cap = cap_for req.key_provider;
  messages = request_messages req;
  tools = tools_or_undefined req.tools;
}

-- What the SDK's stream yields: its chunks, and the error that ends it, if one does.
abbrev pub ended : Streamed → Option Error → List Text × Result TurnResult
ended s none = (s.deltas, ok (turn_result s))
ended s (some e) = (s.deltas, err e)

unfoldable pub stream_openai_compat_turn :
    (CompletionRequest → List Chunk × Option Error) → TurnRequest → List Text × Result TurnResult
unfolding completion_request on_chunks turn_result
stream_openai_compat_turn sdk req =
    let (chunks, error) = sdk (completion_request req) in
    ended (on_chunks nothing_streamed chunks) error
