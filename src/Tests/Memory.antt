-- ===== src/Tests/Memory.antt =====
-- The summaries of old messages, and the statistics of usage, at concrete inputs.
use micro_manus_services.Base.{
  ℕ, zero, suc, ◌≤◌, ◌<◌, ◌≡◌, refl, ◌≢◌, ◌⊎◌, true, false, some, List, [], ◌∷◌, ◌++◌, map, reverse,
  ◌==◌, if◌then◌else◌, Text, codes, length, keep,
}
use micro_manus_services.Db.{Db, ok, MessageRow, UsageRow}
use micro_manus_services.Llm.Types.{ChatRole}
use micro_manus_services.Models.{models}
use micro_manus_services.World.{World, SummarizeJob}
use micro_manus_services.Memory.{
  Helpers, summarize, open_messages, is_open, block_tokens, summary_row,
}
use micro_manus_services.Memory.Blocks.{tokens_before_last}
use micro_manus_services.Memory.Archive.{later1, later2, summarize_leaves}
use micro_manus_services.Usage.Stats.{stats, rows_of, sort_cheap}
use micro_manus_services.Usage.Stats.Sums.{sum_rows, sum_threads, repriced, stats_sums}
use micro_manus_services.Tests.Data.{sample, world, usage, opus, decrypted}

abbrev job : SummarizeJob
job = record { thread_id = 5; user_id = 1; model_id = opus }

abbrev long_text : ℕ → Text
long_text zero = []
long_text (suc n) = b'a' ∷ long_text n

-- Seventeen messages of sixteen thousand characters, newest first.
abbrev talk : ℕ → List MessageRow
talk zero = []
talk (suc n) =
    (record {
      id = n;
      thread_id = 5;
      role = ChatRole.user;
      content = long_text 16000;
      archived = false;
    })
    ∷ talk n

abbrev busy : World
busy = record world { db = record sample { messages = talk 17 } }

abbrev said : ℕ → MessageRow
said id = record {
  id = id;
  thread_id = 5;
  role = ChatRole.user;
  content = codes "Hi";
  archived = false;
}

-- A user sends a message while the model writes.
abbrev helpers : Helpers
helpers = record {
  enabled = true;
  decrypt = decrypted;
  stream_turn =
      λ key m system msgs tools. ok (record { text = codes "Hi"; tool_calls = []; usage = usage });
  embed = λ t. ok (codes "[0]");
  others = λ i w.
      if i == 1 then record w { db = record w.db { messages = said 90 ∷ w.db.messages } } else w;
}

summarize_leaves_example :
    ((summarize helpers job busy).1 ≡ busy)
    ⊎ ((summarize helpers job busy).1 ≡ later1 helpers job busy)
    ⊎ ((summarize helpers job busy).1 ≡ later2 helpers job busy)
    ⊎ ((first : MessageRow) × (more : List MessageRow) × (rest : List MessageRow) × (text : Text)
        × (vector : Text) × (open_messages 5 busy.db ≡ first ∷ (more ++ rest))
        × (1 ≤ length more)
        × (15 ≤ length rest)
        × (tokens_before_last (first ∷ more) < block_tokens)
        × (text ≢ [])
        × (open_messages 5 (summarize helpers job busy).1.db
            ≡ rest ++ reverse (keep (is_open 5) (said 90 ∷ [])))
        × ((summarize helpers job busy).1.db.summaries ≡ summary_row 5 text vector first more ∷ []))
unfolding open_messages
summarize_leaves_example = summarize_leaves helpers job busy (said 90 ∷ []) (record {
  added = refl;
  keys = (
    refl,
    (
      refl,
      (
        refl,
        (
          refl,
          (
            refl,
            (
              refl,
              (
                refl,
                (
                  refl,
                  (
                    refl,
                    (refl, (refl, (refl, (refl, (refl, (refl, (refl, (refl, (refl, tt))))))))),
                  ),
                ),
              ),
            ),
          ),
        ),
      ),
    ),
  );
})

abbrev used : ℕ → UsageRow
used thread = record {
  user_id = 1;
  thread_id = thread;
  run_id = some 10;
  model_id = opus;
  usage = usage;
  cost_usd = 525000;
}

abbrev used_db : Db
used_db = record sample { usage_events = used 5 ∷ used 6 ∷ used 5 ∷ [] }

stats_sums_example :
    ((stats 1 used_db).totals.tally ≡ sum_rows (rows_of 1 used_db))
    × (sum_threads (stats 1 used_db).threads ≡ sum_rows (rows_of 1 used_db))
    × ((stats 1 used_db).what_if ≡ sort_cheap (map (repriced (rows_of 1 used_db)) models))
stats_sums_example = stats_sums 1 used_db
