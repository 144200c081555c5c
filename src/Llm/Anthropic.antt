-- ===== src/Llm/Anthropic.antt =====
-- src/llm/anthropic.provider.ts: the request that Anthropic's own SDK takes, and the reading of its
-- final message. The SDK, `JSON.parse` and `JSON.stringify` are parameters.
pub mod Groups
pub mod Pairs
use micro_manus_services.Base.{
  ℕ, zero, suc, ◌+◌, ◌-◌, ◌*◌, ◌/◌, ◌%◌, ◌≤◌, ◌<◌, max, String, ⊤, ◌≡◌, refl, sym, ap, ◌∙◌, ◌≢◌,
  ◌⊎◌, inl, inr, Bool, true, false, not, ◌&&◌, ◌||◌, Option, none, some, List, [], ◌∷◌, ◌++◌, map,
  reverse, arith, ltb, leb, ◌==◌, if◌then◌else◌, ltb→lt, lt→ltb, leb→le, ==_iff, tests, Bool-cases,
  Option-cases, is_some, Text, codes, length, take, drop, head?, last?, keep, find, any, all,
  update_where, update_where-none, length-append, length-take-le, All, All-append, All-map, text_eq,
}
use micro_manus_services.Db.{Result, ok, err}
use micro_manus_services.Llm.Types.{
  Json, ChatRole, ToolCall, ToolDef, ChatMsg, TurnResult, NormUsage,
}
use micro_manus_services.Llm.Service.{TurnRequest}

infixl 5 ◌>>=◌
abbrev pub ◌>>=◌ : {A B : Type 0} → Result A → (A → Result B) → Result B
ok a >>= f = f a
err e >>= f = err e

pub data BlockKind : Type 0 where
  text : Text → BlockKind
  tool_use : (id name : Text) (input : Json) → BlockKind
  tool_result : (tool_use_id : Option Text) (content : Text) → BlockKind

-- `cached` where `cache_control` is set.
pub record Block : Type 0 where
  pub kind : BlockKind
  pub cached : Bool

pub data MessageContent : Type 0 where
  plain : Text → MessageContent
  blocks : List Block → MessageContent

-- The role of a tool's results is `user`.
pub record MessageParam : Type 0 where
  pub role : ChatRole
  pub content : MessageContent

abbrev pub new_block : BlockKind → Block
new_block k = record { kind = k; cached = false }

abbrev pub is_result : BlockKind → Bool
is_result (tool_result id content) = true
is_result (text t) = false
is_result (tool_use id name input) = false

-- `Array.isArray(content) && content[0]?.type === 'tool_result'`
abbrev pub starts_with_result : MessageContent → Bool
starts_with_result (plain t) = false
starts_with_result (blocks []) = false
starts_with_result (blocks (b ∷ bs)) = is_result b.kind

abbrev pub is_user : ChatRole → Bool
is_user ChatRole.user = true
is_user ChatRole.assistant = false
is_user ChatRole.tool = false

abbrev pub takes_results : MessageParam → Bool
takes_results m = is_user m.role && starts_with_result m.content

abbrev pub add_block : Block → MessageContent → MessageContent
add_block b (plain t) = plain t
add_block b (blocks bs) = blocks (bs ++ b ∷ [])

abbrev pub results_message : Block → MessageParam
results_message b = record { role = ChatRole.user; content = blocks (b ∷ []) }

-- `out` from its newest message on.
unfoldable pub push_result : Block → List MessageParam → List MessageParam
push_result b [] = results_message b ∷ []
push_result b (last ∷ out) =
    if takes_results last
    then record last { content = add_block b last.content } ∷ out
    else results_message b ∷ last ∷ out

abbrev pub result_block : ChatMsg → Block
result_block m = new_block (tool_result m.tool_call_id m.content)

-- `if (m.content) content.push(…)`
abbrev pub text_blocks : Text → List Block
text_blocks [] = []
text_blocks (c ∷ cs) = new_block (text (c ∷ cs)) ∷ []

-- `t.args || '{}'`
abbrev pub json_text : Text → Text
json_text [] = codes "{}"
json_text (c ∷ cs) = c ∷ cs

abbrev pub plain_message : ChatMsg → MessageParam
plain_message m = record { role = m.role; content = plain m.content }

module _ (parse : Text → Result Json) where
  unfoldable pub use_blocks : List ToolCall → Result (List Block)
  use_blocks [] = ok []
  use_blocks (t ∷ ts) = do
    input ← parse (json_text t.args)
    rest ← use_blocks ts
    ok (new_block (tool_use t.id t.name input) ∷ rest)

  abbrev pub spoken : ChatMsg → List Block → MessageParam
  spoken m uses = record {
    role = ChatRole.assistant;
    content = blocks (text_blocks m.content ++ uses);
  }

  abbrev pub push_by :
      ChatRole → Option (List ToolCall) → ChatMsg → List MessageParam → Result (List MessageParam)
  unfolding push_result use_blocks
  push_by ChatRole.tool calls m out = ok (push_result (result_block m) out)
  push_by ChatRole.assistant (some (t ∷ ts)) m out = do
    uses ← use_blocks (t ∷ ts)
    ok (spoken m uses ∷ out)
  push_by ChatRole.assistant (some []) m out = ok (plain_message m ∷ out)
  push_by ChatRole.assistant none m out = ok (plain_message m ∷ out)
  push_by ChatRole.user calls m out = ok (plain_message m ∷ out)

  unfoldable pub push_messages : List ChatMsg → List MessageParam → Result (List MessageParam)
  push_messages [] out = ok (reverse out)
  push_messages (m ∷ ms) out = push_by m.role m.tool_calls m out >>= λ out'. push_messages ms out'

  unfoldable pub to_anthropic_messages : List ChatMsg → Result (List MessageParam)
  unfolding push_messages
  to_anthropic_messages ms = push_messages ms []

abbrev pub mark_block : Block → Block
mark_block b = record b { cached = true }

unfoldable pub mark_last_block : List Block → List Block
mark_last_block [] = []
mark_last_block (b ∷ []) = mark_block b ∷ []
mark_last_block (b ∷ c ∷ bs) = b ∷ mark_last_block (c ∷ bs)

abbrev pub mark_content : MessageContent → MessageContent
unfolding mark_last_block
mark_content (plain t) = blocks (record { kind = text t; cached = true } ∷ [])
mark_content (blocks bs) = blocks (mark_last_block bs)

unfoldable pub with_cache_breakpoint : List MessageParam → List MessageParam
with_cache_breakpoint [] = []
with_cache_breakpoint (m ∷ []) = record m { content = mark_content m.content } ∷ []
with_cache_breakpoint (m ∷ n ∷ ms) = m ∷ with_cache_breakpoint (n ∷ ms)

pub record MessageRequest : Type 0 where
  pub api_key : Text
  pub model : Text
  pub max_tokens : ℕ
  pub system : List Block
  pub messages : List MessageParam
  pub tools : List ToolDef

pub data FinalBlock : Type 0 where
  text : Text → FinalBlock
  tool_use : (id name : Text) (input : Json) → FinalBlock
  other_block : FinalBlock

-- The cache counts may be null.
pub record AnthropicUsage : Type 0 where
  pub input_tokens : ℕ
  pub output_tokens : ℕ
  pub cache_read_input_tokens : Option ℕ
  pub cache_creation_input_tokens : Option ℕ

pub record FinalMessage : Type 0 where
  pub content : List FinalBlock
  pub usage : AnthropicUsage

unfoldable pub final_text : List FinalBlock → Text
final_text [] = []
final_text (FinalBlock.text t ∷ bs) = t ++ final_text bs
final_text (FinalBlock.tool_use id name input ∷ bs) = final_text bs
final_text (FinalBlock.other_block ∷ bs) = final_text bs

abbrev pub count_or_zero : Option ℕ → ℕ
count_or_zero none = 0
count_or_zero (some n) = n

module _ (stringify : Json → Text) where
  unfoldable pub final_calls : List FinalBlock → List ToolCall
  final_calls [] = []
  final_calls (FinalBlock.text t ∷ bs) = final_calls bs
  final_calls (FinalBlock.tool_use id name input ∷ bs) =
      record { id = id; name = name; args = stringify input } ∷ final_calls bs
  final_calls (FinalBlock.other_block ∷ bs) = final_calls bs

  unfoldable pub final_result : FinalMessage → TurnResult
  unfolding final_text final_calls
  final_result m = record {
    text = final_text m.content;
    tool_calls = final_calls m.content;
    usage = record {
      input_tokens = m.usage.input_tokens;
      output_tokens = m.usage.output_tokens;
      cache_read_tokens = count_or_zero m.usage.cache_read_input_tokens;
      cache_write_tokens = count_or_zero m.usage.cache_creation_input_tokens;
    };
  }

  abbrev pub read_final : List Text × Result FinalMessage → List Text × Result TurnResult
  unfolding final_result
  read_final (deltas, ok m) = (deltas, ok (final_result m))
  read_final (deltas, err e) = (deltas, err e)

  abbrev pub send_request :
      (MessageRequest → List Text × Result FinalMessage)
      → TurnRequest
      → Result (List MessageParam)
      → List Text × Result TurnResult
  unfolding with_cache_breakpoint
  send_request sdk req (err e) = ([], err e)
  send_request sdk req (ok ms) = read_final (
      sdk (record {
        api_key = req.api_key;
        model = req.model;
        max_tokens = 32_000;
        system = record { kind = text req.system; cached = true } ∷ [];
        messages = with_cache_breakpoint ms;
        tools = req.tools;
      }))

  unfoldable pub stream_anthropic_turn :
      (parse : Text → Result Json)
      → (sdk : MessageRequest → List Text × Result FinalMessage) → TurnRequest
      → List Text × Result TurnResult
  unfolding to_anthropic_messages
  stream_anthropic_turn parse sdk req =
      send_request sdk req (to_anthropic_messages parse req.messages)
