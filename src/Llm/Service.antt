-- ===== src/Llm/Service.antt =====
-- src/llm/llm.service.ts. `decrypt` (src/keys/crypto.ts) and the two providers' streams, which call
-- other libraries, are parameters.
use micro_manus_services.Base.{
  ℕ, Bool, ◌&&◌, Option, none, some, List, ◌++◌, ◌==◌, if◌then◌else◌, Text, codes, find,
}
use micro_manus_services.Db.{Query, Result, ok, err, http, ApiKeyRow, KeyProvider, provider_eq}
use micro_manus_services.Llm.Types.{ChatMsg, ToolDef, TurnResult}
use micro_manus_services.Models.{ModelEntry, wire_id}

pub record ResolvedKey : Type 0 where
  pub provider : KeyProvider
  pub base_url : Text
  pub api_key : Text

abbrev pub key_for : ℕ → KeyProvider → ApiKeyRow → Bool
key_for user p k = k.user_id == user && provider_eq k.provider p

abbrev pub or_else : Option ApiKeyRow → Option ApiKeyRow → Option ApiKeyRow
or_else none other = other
or_else (some k) other = some k

-- The query of `resolveKey`: the vendor's own key comes before an OpenRouter key.
unfoldable pub pick_key : ℕ → ModelEntry → List ApiKeyRow → Option ApiKeyRow
pick_key user m keys =
    or_else (find (key_for user m.vendor) keys) (find (key_for user KeyProvider.openrouter) keys)

module _ (decrypt : Text → Result Text) where
  abbrev pub opened : ApiKeyRow → Result Text → Result ResolvedKey
  opened k (ok plain) =
      ok (record { provider = k.provider; base_url = k.base_url; api_key = plain })
  opened k (err e) = err e

  abbrev pub open_key : ModelEntry → Option ApiKeyRow → Result ResolvedKey
  open_key m none = err (http 404 (codes "No API key stored that can run " ++ m.label))
  open_key m (some k) = opened k (decrypt k.key_ciphertext)

  unfoldable pub resolve_key : ℕ → ModelEntry → Query ResolvedKey
  unfolding pick_key
  resolve_key user m d = (open_key m (pick_key user m d.api_keys), d)

pub record TurnRequest : Type 0 where
  pub key_provider : KeyProvider
  pub api_key : Text
  pub base_url : Text
  pub model : Text
  pub system : Text
  pub messages : List ChatMsg
  pub tools : List ToolDef

-- What a provider's stream yields: the text deltas, and the result or an error.
abbrev pub Stream : Type 0
Stream = TurnRequest → List Text × Result TurnResult

abbrev pub turn_request :
    ResolvedKey → ModelEntry → Text → List ChatMsg → List ToolDef → TurnRequest
turn_request k m system messages tools = record {
  key_provider = k.provider;
  api_key = k.api_key;
  base_url = k.base_url;
  model = wire_id m k.provider;
  system = system;
  messages = messages;
  tools = tools;
}

-- `streamTurn`: a key of Anthropic goes to its own SDK, any other to the OpenAI-compatible path.
unfoldable pub stream_turn :
    (anthropic openai_compat : Stream)
    → ResolvedKey
    → ModelEntry
    → Text
    → List ChatMsg
    → List ToolDef
    → List Text × Result TurnResult
stream_turn anthropic openai_compat k m system messages tools =
    if provider_eq k.provider KeyProvider.anthropic
    then anthropic (turn_request k m system messages tools)
    else openai_compat (turn_request k m system messages tools)
