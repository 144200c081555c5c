-- ===== src/Usage/Groups.antt =====
-- The queries of src/usage/usage.controller.ts: the groups of usage events by thread and model, and
-- the costs of runs.
use micro_manus_services.Base.{
  ℕ, ◌+◌, Bool, ◌&&◌, Option, none, some, List, [], ◌∷◌, ◌==◌, if◌then◌else◌, Text, any, text_eq,
}
use micro_manus_services.Db.{UsageRow}
use micro_manus_services.Llm.Types.{NormUsage}

pub record Tally : Type 0 where
  pub usage : NormUsage
  pub cost : ℕ

abbrev pub no_usage : NormUsage
no_usage = record {
  input_tokens = 0;
  output_tokens = 0;
  cache_read_tokens = 0;
  cache_write_tokens = 0;
}

abbrev pub no_tally : Tally
no_tally = record { usage = no_usage; cost = 0 }

abbrev pub add_usage : NormUsage → NormUsage → NormUsage
add_usage a b = record {
  input_tokens = a.input_tokens + b.input_tokens;
  output_tokens = a.output_tokens + b.output_tokens;
  cache_read_tokens = a.cache_read_tokens + b.cache_read_tokens;
  cache_write_tokens = a.cache_write_tokens + b.cache_write_tokens;
}

abbrev pub add_tally : Tally → Tally → Tally
add_tally a b = record { usage = add_usage a.usage b.usage; cost = a.cost + b.cost }

abbrev pub row_tally : UsageRow → Tally
row_tally u = record { usage = u.usage; cost = u.cost_usd }

-- GROUP BY thread_id, model_id; `runs` holds the distinct runs, which the query counts.
pub record Group : Type 0 where
  pub thread_id : ℕ
  pub model_id : Text
  pub runs : List ℕ
  pub tally : Tally

abbrev pub with_run : Option ℕ → List ℕ → List ℕ
with_run none runs = runs
with_run (some r) runs = if any (λ x. x == r) runs then runs else r ∷ runs

abbrev pub in_group : UsageRow → Group → Bool
in_group u g = g.thread_id == u.thread_id && text_eq g.model_id u.model_id

unfoldable pub group_row : UsageRow → List Group → List Group
group_row u [] =
    (record {
      thread_id = u.thread_id;
      model_id = u.model_id;
      runs = with_run u.run_id [];
      tally = row_tally u;
    })
    ∷ []
group_row u (g ∷ gs) =
    if in_group u g
    then (record g { runs = with_run u.run_id g.runs; tally = add_tally (row_tally u) g.tally })
      ∷ gs
    else g ∷ group_row u gs

unfoldable pub group_rows : List UsageRow → List Group
unfolding group_row
group_rows [] = []
group_rows (u ∷ us) = group_row u (group_rows us)

-- GROUP BY thread_id, run_id, of the rows with a run, oldest first.
pub record RunCost : Type 0 where
  pub thread_id : ℕ
  pub run_id : ℕ
  pub cost : ℕ

unfoldable pub add_run : ℕ → ℕ → ℕ → List RunCost → List RunCost
add_run thread run cost [] = (record { thread_id = thread; run_id = run; cost = cost }) ∷ []
add_run thread run cost (r ∷ rs) =
    if r.thread_id == thread && r.run_id == run
    then (record r { cost = r.cost + cost }) ∷ rs
    else r ∷ add_run thread run cost rs

abbrev pub run_row : UsageRow → Option ℕ → List RunCost → List RunCost
unfolding add_run
run_row u none rs = rs
run_row u (some run) rs = add_run u.thread_id run u.cost_usd rs

unfoldable pub run_costs : List RunCost → List UsageRow → List RunCost
unfolding run_row
run_costs rs [] = rs
run_costs rs (u ∷ us) = run_costs (run_row u u.run_id rs) us
