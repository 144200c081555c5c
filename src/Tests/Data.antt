-- ===== src/Tests/Data.antt =====
-- A small database for the tests: two users, two threads of one of them, and a running run that has
-- been paid for.
use micro_manus_services.Base.{ℕ, refl, false, none, [], ◌∷◌, Text, codes}
use micro_manus_services.Base.Int.{ℤ, ◌+ℤ◌, pos, negsuc, int_laws}
use micro_manus_services.Db.{
  Db, Result, ok, UserRow, RunRow, ThreadRow, MessageRow, LedgerRow, ApiKeyRow, KeyProvider,
  OauthProvider, Role, Reason, Ref, RunStatus,
}
use micro_manus_services.Ledger.Sound.{IsSound}
use micro_manus_services.Llm.Types.{ChatRole, NormUsage}
use micro_manus_services.World.{World}
use micro_manus_services.Agent.Loop.{Services}
use micro_manus_services.Agent.Process.{Blocks, Job}

abbrev pub alice : UserRow
alice = record {
  id = 1;
  email = codes "alice@x.org";
  name = none;
  image = none;
  oauth_provider = OauthProvider.google;
  oauth_id = codes "g-1";
  credits = pos 2;
  role = Role.admin;
}

abbrev pub bob : UserRow
bob = record {
  id = 2;
  email = codes "bob@x.org";
  name = none;
  image = none;
  oauth_provider = OauthProvider.github;
  oauth_id = codes "h-2";
  credits = pos 1;
  role = Role.member;
}

abbrev pub opus : Text
opus = codes "claude-opus-4-8"

abbrev pub running_run : RunRow
running_run = record {
  id = 10;
  thread_id = 5;
  user_id = 1;
  model_id = opus;
  status = RunStatus.running;
  steps = [];
  error = none;
  started_at = 0;
}

abbrev pub thread : ℕ → ThreadRow
thread id = record { id = id; user_id = 1; title = codes "New chat"; model_id = none }

abbrev pub question : MessageRow
question = record {
  id = 20;
  thread_id = 5;
  role = ChatRole.user;
  content = codes "What is new?";
  archived = false;
}

abbrev pub row : ℕ → ℤ → Reason → Ref → LedgerRow
row user delta reason ref = record { user_id = user; delta = delta; reason = reason; ref_id = ref }

abbrev pub key_row : ℕ → KeyProvider → ApiKeyRow
key_row id p = record {
  id = id;
  user_id = 1;
  provider = p;
  base_url = [];
  key_ciphertext = [];
  key_hint = [];
  models = [];
}

abbrev pub sample : Db
sample = record {
  users = alice ∷ bob ∷ [];
  api_keys = key_row 30 KeyProvider.openrouter ∷ key_row 31 KeyProvider.anthropic ∷ [];
  threads = thread 5 ∷ thread 6 ∷ [];
  messages = question ∷ [];
  runs = running_run ∷ [];
  usage_events = [];
  credit_ledger =
      row 1 (negsuc 0) Reason.debit (Ref.ref_run 10)
      ∷ row 2 (pos 1) Reason.admin_grant (Ref.ref_admin 1)
      ∷ row 1 (pos 3) Reason.purchase (Ref.ref_session 40)
      ∷ [];
  redemptions = [];
  stripe_events = [];
  uploads = [];
  summaries = [];
  artifacts = [];
}

pub sample-IsSound : IsSound sample
unfolding ◌+ℤ◌
sample-IsSound = record {
  balanced = record {
    keys = (refl, (refl, tt));
    sums = (refl, (refl, tt));
    nonneg = (omega int_laws, (omega int_laws, tt));
    owned = (refl, (refl, (refl, tt)));
  };
  charged = record { keys = (refl, tt); charged = ((refl, refl), tt) };
  exclusive = (λ alive. refl, tt);
}

abbrev pub world : World
world = record { db = sample; cancelled = []; published = []; run_jobs = []; summarize_jobs = [] }

abbrev pub usage : NormUsage
usage = record {
  input_tokens = 1000;
  output_tokens = 10;
  cache_read_tokens = 0;
  cache_write_tokens = 0;
}

-- A model that answers at once, and a tool that does nothing.
abbrev pub services : Services
services = record {
  stream = λ key m msgs tools.
      (codes "Hi" ∷ [], ok (record { text = codes "Hi"; tool_calls = []; usage = usage }));
  defs = [];
  execute = λ r tc w. (
    record {
      content = [];
      summary = [];
      artifact_id = none;
      artifact_type = none;
      artifact_title = none;
      sources = none;
    },
    w,
  );
  parse = λ t. none;
  schedule = λ cs. cs;
  others = λ i w. w;
  clock = λ i. i;
  duration = λ i. 0;
}

abbrev pub blocks : Blocks
blocks = record { memory_block = λ u q d. none }

abbrev pub decrypted : Text → Result Text
decrypted t = ok t

abbrev pub job : Job
job = record { run_id = 10; attempts = 3; attempts_made = 0 }
