-- ===== src/Llm/Types.antt =====
-- src/llm/types.ts, and JSON values as the language has them.
use micro_manus_services.Base.{ℕ, Bool, Option, List, Text}
use micro_manus_services.Base.Int.{ℤ}

-- A parsed JSON value (`unknown` in the source). Numbers with a fraction are left out.
mutual
  pub data Json : Type 0 where
    null : Json
    bool : Bool → Json
    num : ℤ → Json
    str : Text → Json
    arr : Items → Json
    obj : Members → Json

  pub data Items : Type 0 where
    nil : Items
    cons : Json → Items → Items

  pub data Members : Type 0 where
    end : Members
    member : Text → Json → Members → Members

pub data ChatRole : Type 0 where
  user assistant tool : ChatRole

-- `args` is the JSON text as sent by the provider.
pub record ToolCall : Type 0 where
  pub id : Text
  pub name : Text
  pub args : Text

-- `toolCalls?` is `none` where the property is undefined.
pub record ChatMsg : Type 0 where
  pub role : ChatRole
  pub content : Text
  pub tool_calls : Option (List ToolCall)
  pub tool_call_id : Option Text

pub record ToolDef : Type 0 where
  pub name : Text
  pub description : Text
  pub parameters : Json

pub record NormUsage : Type 0 where
  pub input_tokens : ℕ
  pub output_tokens : ℕ
  pub cache_read_tokens : ℕ
  pub cache_write_tokens : ℕ

pub record TurnResult : Type 0 where
  pub text : Text
  pub tool_calls : List ToolCall
  pub usage : NormUsage
