-- ===== src/Usage/Stats.antt =====
-- `GET /usage/stats` of src/usage/usage.controller.ts. Costs and savings are in units of 10⁻⁸ US
-- dollars; the arithmetic of the source, which is in floating point, is exact here. The times of
-- the runs are left out.
pub mod Sums
use micro_manus_services.Base.{
  ℕ, zero, suc, ◌+◌, ◌-◌, ◌*◌, ◌/◌, ◌%◌, ◌≤◌, ◌<◌, max, String, ⊤, ◌≡◌, refl, sym, ap, ◌∙◌, ◌≢◌,
  ◌⊎◌, inl, inr, Bool, true, false, not, ◌&&◌, ◌||◌, Option, none, some, List, [], ◌∷◌, ◌++◌, map,
  reverse, arith, ltb, leb, ◌==◌, if◌then◌else◌, ltb→lt, lt→ltb, leb→le, ==_iff, tests, Bool-cases,
  Option-cases, is_some, Text, codes, length, take, drop, head?, last?, keep, find, any, all,
  update_where, update_where-none, length-append, length-take-le, All, All-append, All-map, text_eq,
}
use micro_manus_services.Base.Int.{ℤ, pos, sub_ℕ, ◌+ℤ◌}
use micro_manus_services.Db.{Db, UsageRow, ThreadRow}
use micro_manus_services.Llm.Types.{NormUsage}
use micro_manus_services.Models.{Pricing, ModelEntry, models, get_model}
use micro_manus_services.Usage.Groups.{
  Tally, no_usage, no_tally, add_usage, add_tally, row_tally, Group, with_run, in_group, group_row,
  group_rows, RunCost, add_run, run_row, run_costs,
}

pub record ThreadStats : Type 0 where
  pub thread_id : ℕ
  pub title : Text
  pub model_ids : List Text
  pub runs : ℕ
  pub tally : Tally
  pub cache_saved : ℤ
  pub per_run : List RunCost

abbrev pub title_or_deleted : Option ThreadRow → Text
title_or_deleted none = codes "(deleted chat)"
title_or_deleted (some t) = t.title

abbrev pub title_of : ℕ → List ThreadRow → Text
title_of thread ts = title_or_deleted (find (λ t. t.id == thread) ts)

-- Reads are billed at `cacheRead` in place of `in`, and writes at `cacheWrite`.
abbrev pub saved_at : Pricing → NormUsage → ℤ
saved_at p u =
    sub_ℕ (u.cache_read_tokens * p.input + u.cache_write_tokens * p.input)
      (u.cache_read_tokens * p.cache_read + u.cache_write_tokens * p.cache_write)

-- An unknown model adds nothing.
abbrev pub saved_by : Option ModelEntry → NormUsage → ℤ
saved_by none u = pos 0
saved_by (some m) u = saved_at m.pricing u

abbrev pub fresh_thread : List ThreadRow → ℕ → ThreadStats
fresh_thread ts thread = record {
  thread_id = thread;
  title = title_of thread ts;
  model_ids = [];
  runs = 0;
  tally = no_tally;
  cache_saved = pos 0;
  per_run = [];
}

abbrev pub add_group : Group → ThreadStats → ThreadStats
add_group g t = record t {
  model_ids = t.model_ids ++ g.model_id ∷ [];
  runs = t.runs + length g.runs;
  tally = add_tally t.tally g.tally;
  cache_saved = t.cache_saved +ℤ saved_by (get_model g.model_id) g.tally.usage;
}

module _ (ts : List ThreadRow) where
  -- `threadsMap`, which keeps the order of its first keys.
  unfoldable pub roll_up : Group → List ThreadStats → List ThreadStats
  roll_up g [] = add_group g (fresh_thread ts g.thread_id) ∷ []
  roll_up g (t ∷ rest) =
      if t.thread_id == g.thread_id then add_group g t ∷ rest else t ∷ roll_up g rest

  unfoldable pub roll_up_all : List Group → List ThreadStats → List ThreadStats
  unfolding roll_up
  roll_up_all [] threads = threads
  roll_up_all (g ∷ gs) threads = roll_up_all gs (roll_up g threads)

-- `threadsMap.get(r.thread_id)?.perRun.push(…)`
unfoldable pub push_run : RunCost → List ThreadStats → List ThreadStats
push_run r [] = []
push_run r (t ∷ rest) =
    if t.thread_id == r.thread_id
    then (record t { per_run = t.per_run ++ r ∷ [] }) ∷ rest
    else t ∷ push_run r rest

unfoldable pub push_runs : List RunCost → List ThreadStats → List ThreadStats
unfolding push_run
push_runs [] threads = threads
push_runs (r ∷ rs) threads = push_runs rs (push_run r threads)

-- `sort((a, b) => b.costUsd - a.costUsd)`, which is stable.
unfoldable pub insert_thread : ThreadStats → List ThreadStats → List ThreadStats
insert_thread t [] = t ∷ []
insert_thread t (u ∷ us) =
    if leb u.tally.cost t.tally.cost then t ∷ u ∷ us else u ∷ insert_thread t us

unfoldable pub sort_threads : List ThreadStats → List ThreadStats
unfolding insert_thread
sort_threads [] = []
sort_threads (t ∷ ts) = insert_thread t (sort_threads ts)

pub record Totals : Type 0 where
  pub tally : Tally
  pub cache_saved : ℤ
  pub runs : ℕ

-- `reduce`, from the left.
unfoldable pub total_from : Totals → List ThreadStats → Totals
total_from a [] = a
total_from a (t ∷ ts) =
    total_from
      (record {
        tally = add_tally a.tally t.tally;
        cache_saved = a.cache_saved +ℤ t.cache_saved;
        runs = a.runs + t.runs;
      })
      ts

abbrev pub no_totals : Totals
no_totals = record { tally = no_tally; cache_saved = pos 0; runs = 0 }

pub record WhatIf : Type 0 where
  pub model_id : Text
  pub label : Text
  pub cost : ℕ

-- The same tokens at another model's prices.
abbrev pub priced_total : NormUsage → ModelEntry → WhatIf
priced_total u m = record {
  model_id = m.id;
  label = m.label;
  cost =
      u.input_tokens * m.pricing.input
      + u.output_tokens * m.pricing.output
      + u.cache_read_tokens * m.pricing.cache_read
      + u.cache_write_tokens * m.pricing.cache_write;
}

-- `sort((a, b) => a.costUsd - b.costUsd)`
unfoldable pub insert_cheap : WhatIf → List WhatIf → List WhatIf
insert_cheap w [] = w ∷ []
insert_cheap w (v ∷ vs) = if leb w.cost v.cost then w ∷ v ∷ vs else v ∷ insert_cheap w vs

unfoldable pub sort_cheap : List WhatIf → List WhatIf
unfolding insert_cheap
sort_cheap [] = []
sort_cheap (w ∷ ws) = insert_cheap w (sort_cheap ws)

-- A fraction; 0 where there is no input.
abbrev pub hit_rate : NormUsage → ℕ × ℕ
hit_rate u =
    if ltb 0 (u.input_tokens + u.cache_read_tokens)
    then (u.cache_read_tokens, u.input_tokens + u.cache_read_tokens)
    else (0, 1)

pub record Stats : Type 0 where
  pub threads : List ThreadStats
  pub totals : Totals
  pub cache_hit_rate : ℕ × ℕ
  pub what_if : List WhatIf

abbrev pub rows_of : ℕ → Db → List UsageRow
rows_of user d = keep (λ u. u.user_id == user) d.usage_events

abbrev pub threads_of : ℕ → Db → List ThreadRow
threads_of user d = keep (λ t. t.user_id == user) d.threads

unfoldable pub thread_stats : ℕ → Db → List ThreadStats
unfolding group_rows run_costs roll_up_all push_runs sort_threads
thread_stats user d = sort_threads (
    push_runs (run_costs [] (reverse (rows_of user d)))
      (roll_up_all (threads_of user d) (group_rows (rows_of user d)) []))

abbrev stats_from : List ThreadStats → Totals → Stats
unfolding sort_cheap
stats_from threads totals = record {
  threads = threads;
  totals = totals;
  cache_hit_rate = hit_rate totals.tally.usage;
  what_if = sort_cheap (map (priced_total totals.tally.usage) models);
}

unfoldable pub stats : ℕ → Db → Stats
unfolding thread_stats total_from stats_from
stats user d = stats_from (thread_stats user d) (total_from no_totals (thread_stats user d))
