-- ===== src/Db/Rows.antt =====
-- The tables of db/migrations, a row type and a field of `Db` for each. A table is the list of its
-- rows, newest first. Identifiers that are only stored and compared are numbers; times are in
-- milliseconds. Columns that the code only writes are left out, as are `messages.tool_calls` and
-- `tool_call_id`, which no statement sets.
use micro_manus_services.Base.{ℕ, Bool, true, false, Option, List, Text}
use micro_manus_services.Base.Int.{ℤ}
use micro_manus_services.RunEvents.{RunStep}
use micro_manus_services.Llm.Types.{ChatRole, NormUsage}

pub data Role : Type 0 where
  member admin : Role

pub data OauthProvider : Type 0 where
  google github : OauthProvider

pub data KeyProvider : Type 0 where
  openai anthropic moonshot groq openrouter : KeyProvider

pub data RunStatus : Type 0 where
  running done failed : RunStatus

pub data Reason : Type 0 where
  purchase coupon debit refund admin_grant : Reason

-- `ref_id` is a text column: a run, an administrator, a checkout session or a coupon code.
pub data Ref : Type 0 where
  ref_run ref_admin ref_session : ℕ → Ref
  ref_code : Text → Ref

pub record UserRow : Type 0 where
  pub id : ℕ
  pub email : Text
  pub name : Option Text
  pub image : Option Text
  pub oauth_provider : OauthProvider
  pub oauth_id : Text
  pub credits : ℤ
  pub role : Role

pub record ApiKeyRow : Type 0 where
  pub id : ℕ
  pub user_id : ℕ
  pub provider : KeyProvider
  pub base_url : Text
  pub key_ciphertext : Text
  pub key_hint : Text
  pub models : List Text

pub record ThreadRow : Type 0 where
  pub id : ℕ
  pub user_id : ℕ
  pub title : Text
  pub model_id : Option Text

pub record MessageRow : Type 0 where
  pub id : ℕ
  pub thread_id : ℕ
  pub role : ChatRole
  pub content : Text
  pub archived : Bool

pub record RunRow : Type 0 where
  pub id : ℕ
  pub thread_id : ℕ
  pub user_id : ℕ
  pub model_id : Text
  pub status : RunStatus
  pub steps : List RunStep
  pub error : Option Text
  pub started_at : ℕ

pub record UsageRow : Type 0 where
  pub user_id : ℕ
  pub thread_id : ℕ
  pub run_id : Option ℕ
  pub model_id : Text
  pub usage : NormUsage
  pub cost_usd : ℕ

pub record LedgerRow : Type 0 where
  pub user_id : ℕ
  pub delta : ℤ
  pub reason : Reason
  pub ref_id : Ref

pub record RedemptionRow : Type 0 where
  pub user_id : ℕ
  pub code : Text

pub record UploadRow : Type 0 where
  pub id : ℕ
  pub user_id : ℕ
  pub thread_id : Option ℕ
  pub filename : Text
  pub text_content : Option Text

-- The vector is kept as its literal.
pub record SummaryRow : Type 0 where
  pub thread_id : ℕ
  pub content : Text
  pub embedding : Text
  pub first_message_id : ℕ
  pub last_message_id : ℕ

pub record ArtifactRow : Type 0 where
  pub id : ℕ
  pub thread_id : ℕ
  pub run_id : Option ℕ
  pub type : Text
  pub title : Text
  pub file_path : Text
  pub content_md : Option Text

pub record Db : Type 0 where
  pub users : List UserRow
  pub api_keys : List ApiKeyRow
  pub threads : List ThreadRow
  pub messages : List MessageRow
  pub runs : List RunRow
  pub usage_events : List UsageRow
  pub credit_ledger : List LedgerRow
  pub redemptions : List RedemptionRow
  pub stripe_events : List ℕ
  pub uploads : List UploadRow
  pub summaries : List SummaryRow
  pub artifacts : List ArtifactRow

abbrev pub empty_db : Db
empty_db = record {
  users = List.[];
  api_keys = List.[];
  threads = List.[];
  messages = List.[];
  runs = List.[];
  usage_events = List.[];
  credit_ledger = List.[];
  redemptions = List.[];
  stripe_events = List.[];
  uploads = List.[];
  summaries = List.[];
  artifacts = List.[];
}

abbrev pub is_running : RunStatus → Bool
is_running RunStatus.running = true
is_running _ = false

abbrev pub provider_eq : KeyProvider → KeyProvider → Bool
provider_eq KeyProvider.openai KeyProvider.openai = true
provider_eq KeyProvider.anthropic KeyProvider.anthropic = true
provider_eq KeyProvider.moonshot KeyProvider.moonshot = true
provider_eq KeyProvider.groq KeyProvider.groq = true
provider_eq KeyProvider.openrouter KeyProvider.openrouter = true
provider_eq _ _ = false

abbrev pub oauth_eq : OauthProvider → OauthProvider → Bool
oauth_eq OauthProvider.google OauthProvider.google = true
oauth_eq OauthProvider.github OauthProvider.github = true
oauth_eq _ _ = false
