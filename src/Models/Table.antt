-- ===== src/Models/Table.antt =====
-- The entries of src/models/registry.ts.
use micro_manus_services.Base.{ℕ, List, [], ◌∷◌, Text, codes}
use micro_manus_services.Db.{KeyProvider}

-- US cents for a million tokens: every price of the table is a whole number of cents.
pub record Pricing : Type 0 where
  pub input : ℕ
  pub output : ℕ
  pub cache_read : ℕ
  pub cache_write : ℕ

-- A vendor is named like its own key provider (`VENDOR_TO_KEY_PROVIDER` is the identity).
pub record ModelEntry : Type 0 where
  pub id : Text
  pub label : Text
  pub vendor : KeyProvider
  pub context_window : ℕ
  pub direct_id : Text
  pub openrouter_id : Text
  pub pricing : Pricing

abbrev pub claude_opus_4_8 : ModelEntry
claude_opus_4_8 = record {
  id = codes "claude-opus-4-8";
  label = codes "Claude Opus 4.8";
  vendor = KeyProvider.anthropic;
  context_window = 1000000;
  direct_id = codes "claude-opus-4-8";
  openrouter_id = codes "anthropic/claude-opus-4.8";
  pricing = record { input = 500; output = 2500; cache_read = 50; cache_write = 625 };
}

abbrev pub claude_sonnet_5 : ModelEntry
claude_sonnet_5 = record {
  id = codes "claude-sonnet-5";
  label = codes "Claude Sonnet 5";
  vendor = KeyProvider.anthropic;
  context_window = 1000000;
  direct_id = codes "claude-sonnet-5";
  openrouter_id = codes "anthropic/claude-sonnet-5";
  pricing = record { input = 200; output = 1000; cache_read = 20; cache_write = 250 };
}

abbrev pub claude_haiku_4_5 : ModelEntry
claude_haiku_4_5 = record {
  id = codes "claude-haiku-4-5";
  label = codes "Claude Haiku 4.5";
  vendor = KeyProvider.anthropic;
  context_window = 200000;
  direct_id = codes "claude-haiku-4-5";
  openrouter_id = codes "anthropic/claude-haiku-4.5";
  pricing = record { input = 100; output = 500; cache_read = 10; cache_write = 125 };
}

abbrev pub gpt_5_6_sol : ModelEntry
gpt_5_6_sol = record {
  id = codes "gpt-5.6-sol";
  label = codes "GPT-5.6 Sol";
  vendor = KeyProvider.openai;
  context_window = 1050000;
  direct_id = codes "gpt-5.6-sol";
  openrouter_id = codes "openai/gpt-5.6-sol";
  pricing = record { input = 500; output = 3000; cache_read = 50; cache_write = 0 };
}

abbrev pub gpt_5_6_terra : ModelEntry
gpt_5_6_terra = record {
  id = codes "gpt-5.6-terra";
  label = codes "GPT-5.6 Terra";
  vendor = KeyProvider.openai;
  context_window = 1050000;
  direct_id = codes "gpt-5.6-terra";
  openrouter_id = codes "openai/gpt-5.6-terra";
  pricing = record { input = 250; output = 1500; cache_read = 25; cache_write = 0 };
}

abbrev pub gpt_5_6_luna : ModelEntry
gpt_5_6_luna = record {
  id = codes "gpt-5.6-luna";
  label = codes "GPT-5.6 Luna";
  vendor = KeyProvider.openai;
  context_window = 1050000;
  direct_id = codes "gpt-5.6-luna";
  openrouter_id = codes "openai/gpt-5.6-luna";
  pricing = record { input = 100; output = 600; cache_read = 10; cache_write = 0 };
}

abbrev pub kimi_k3 : ModelEntry
kimi_k3 = record {
  id = codes "kimi-k3";
  label = codes "Kimi K3";
  vendor = KeyProvider.moonshot;
  context_window = 1048576;
  direct_id = codes "kimi-k3";
  openrouter_id = codes "moonshotai/kimi-k3";
  pricing = record { input = 300; output = 1500; cache_read = 30; cache_write = 0 };
}

abbrev pub kimi_k2_7_code : ModelEntry
kimi_k2_7_code = record {
  id = codes "kimi-k2.7-code";
  label = codes "Kimi K2.7 Code";
  vendor = KeyProvider.moonshot;
  context_window = 262144;
  direct_id = codes "kimi-k2.7-code";
  openrouter_id = codes "moonshotai/kimi-k2.7-code";
  pricing = record { input = 82; output = 375; cache_read = 16; cache_write = 0 };
}

abbrev pub llama_3_3_70b : ModelEntry
llama_3_3_70b = record {
  id = codes "llama-3.3-70b";
  label = codes "Llama 3.3 70B (Groq)";
  vendor = KeyProvider.groq;
  context_window = 131072;
  direct_id = codes "llama-3.3-70b-versatile";
  openrouter_id = codes "meta-llama/llama-3.3-70b-instruct";
  pricing = record { input = 59; output = 79; cache_read = 0; cache_write = 0 };
}

abbrev pub gpt_oss_120b : ModelEntry
gpt_oss_120b = record {
  id = codes "gpt-oss-120b";
  label = codes "GPT-OSS 120B (Groq)";
  vendor = KeyProvider.groq;
  context_window = 131072;
  direct_id = codes "openai/gpt-oss-120b";
  openrouter_id = codes "openai/gpt-oss-120b";
  pricing = record { input = 15; output = 75; cache_read = 0; cache_write = 0 };
}

abbrev pub models : List ModelEntry
models =
    claude_opus_4_8 ∷ claude_sonnet_5 ∷ claude_haiku_4_5 ∷ gpt_5_6_sol ∷ gpt_5_6_terra
    ∷ gpt_5_6_luna ∷ kimi_k3 ∷ kimi_k2_7_code ∷ llama_3_3_70b ∷ gpt_oss_120b ∷ []
