-- ===== src/Llm/Chunks.antt =====
-- The stream of src/llm/openai-compat.provider.ts: its chunks, and the turn that they add up to.
pub mod Fragments
pub mod Table
pub mod Turn
use micro_manus_services.Base.{
  ℕ, zero, suc, ◌+◌, ◌-◌, ◌*◌, ◌/◌, ◌%◌, ◌≤◌, ◌<◌, max, String, ⊤, ◌≡◌, refl, sym, ap, ◌∙◌, ◌≢◌,
  ◌⊎◌, inl, inr, Bool, true, false, not, ◌&&◌, ◌||◌, Option, none, some, List, [], ◌∷◌, ◌++◌, map,
  reverse, arith, ltb, leb, ◌==◌, if◌then◌else◌, ltb→lt, lt→ltb, leb→le, ==_iff, tests, Bool-cases,
  Option-cases, is_some, Text, codes, length, take, drop, head?, last?, keep, find, any, all,
  update_where, update_where-none, length-append, length-take-le, All, All-append, All-map, text_eq,
}
use micro_manus_services.Llm.Types.{ToolCall, TurnResult, NormUsage}

-- One entry of `delta.tool_calls`; `name` and `arguments` are `none` where `function` is missing,
-- too.
pub record Fragment : Type 0 where
  pub index : ℕ
  pub id : Option Text
  pub name : Option Text
  pub arguments : Option Text

pub record CompletionUsage : Type 0 where
  pub prompt_tokens : ℕ
  pub completion_tokens : ℕ
  pub cached_tokens : Option ℕ

-- `content` and `tool_calls` of the first choice's delta; a chunk without a choice has neither.
pub record Chunk : Type 0 where
  pub content : Option Text
  pub tool_calls : List Fragment
  pub usage : Option CompletionUsage

-- The variables of the loop, with the deltas that went to `onTextDelta`.
pub record Streamed : Type 0 where
  pub text : Text
  pub deltas : List Text
  pub calls : List (ℕ × ToolCall)
  pub usage : Option CompletionUsage

-- A `Map` keeps its keys in the order in which they were first set.
pub get_call : ℕ → List (ℕ × ToolCall) → Option ToolCall
get_call k [] = none
get_call k ((j, c) ∷ cs) = if j == k then some c else get_call k cs

pub set_call : ℕ → ToolCall → List (ℕ × ToolCall) → List (ℕ × ToolCall)
set_call k c [] = (k, c) ∷ []
set_call k c ((j, d) ∷ cs) = if j == k then (j, c) ∷ cs else (j, d) ∷ set_call k c cs

abbrev pub no_call : ToolCall
no_call = record { id = []; name = []; args = [] }

abbrev pub call_or_new : Option ToolCall → ToolCall
call_or_new none = no_call
call_or_new (some c) = c

-- `if (x) old = x` and `if (x) old += x`: the empty text is falsy.
abbrev pub replaced : Option Text → Text → Text
replaced none old = old
replaced (some []) old = old
replaced (some (c ∷ cs)) old = c ∷ cs

abbrev pub extended : Option Text → Text → Text
extended none old = old
extended (some []) old = old
extended (some (c ∷ cs)) old = old ++ c ∷ cs

abbrev pub with_fragment : Fragment → ToolCall → ToolCall
with_fragment f c = record {
  id = replaced f.id c.id;
  name = extended f.name c.name;
  args = extended f.arguments c.args;
}

pub on_fragments : List Fragment → List (ℕ × ToolCall) → List (ℕ × ToolCall)
unfolding get_call set_call
on_fragments [] calls = calls
on_fragments (f ∷ fs) calls =
    on_fragments fs
      (set_call f.index (with_fragment f (call_or_new (get_call f.index calls))) calls)

abbrev pub published : Option Text → List Text
published none = []
published (some []) = []
published (some (c ∷ cs)) = (c ∷ cs) ∷ []

abbrev pub or_last : Option CompletionUsage → Option CompletionUsage → Option CompletionUsage
or_last none old = old
or_last (some u) old = some u

pub on_chunk : Streamed → Chunk → Streamed
unfolding on_fragments
on_chunk s c = record {
  text = extended c.content s.text;
  deltas = s.deltas ++ published c.content;
  calls = on_fragments c.tool_calls s.calls;
  usage = or_last c.usage s.usage;
}

unfoldable pub on_chunks : Streamed → List Chunk → Streamed
unfolding on_chunk
on_chunks s [] = s
on_chunks s (c ∷ cs) = on_chunks (on_chunk s c) cs

abbrev pub nothing_streamed : Streamed
nothing_streamed = record { text = []; deltas = []; calls = []; usage = none }

abbrev pub is_text : Text → Bool
is_text [] = false
is_text (c ∷ cs) = true

abbrev pub is_complete : ToolCall → Bool
is_complete c = is_text c.id && is_text c.name

abbrev pub call_of : ℕ × ToolCall → ToolCall
call_of (k, c) = c

abbrev pub or_zero : Option ℕ → ℕ
or_zero none = 0
or_zero (some n) = n

-- `Math.max(0, prompt - cached)` is the difference of ℕ.
unfoldable pub norm_usage : Option CompletionUsage → NormUsage
norm_usage none = record {
  input_tokens = 0;
  output_tokens = 0;
  cache_read_tokens = 0;
  cache_write_tokens = 0;
}
norm_usage (some u) = record {
  input_tokens = u.prompt_tokens - or_zero u.cached_tokens;
  output_tokens = u.completion_tokens;
  cache_read_tokens = or_zero u.cached_tokens;
  cache_write_tokens = 0;
}

unfoldable pub turn_result : Streamed → TurnResult
unfolding norm_usage
turn_result s = record {
  text = s.text;
  tool_calls = keep is_complete (map call_of s.calls);
  usage = norm_usage s.usage;
}
