-- ===== src/Usage/Cost.antt =====
-- src/usage/usage.service.ts. A price is in cents for a million tokens, so tokens times price is in
-- units of 10⁻⁸ US dollars; the arithmetic of the source, which is in floating point, is exact
-- here. The column `cost_usd numeric(12,6)` keeps six decimals of a dollar: 100 units.
use micro_manus_services.Base.{
  ℕ, ◌+◌, ◌*◌, ◌/◌, ◌≡◌, ◌⊎◌, inl, inr, Bool, ◌&&◌, Option, none, some, List, [], ◌∷◌, ltb, ◌==◌,
  if◌then◌else◌, Bool-cases, Text, keep, any,
}
use micro_manus_services.Db.{Db, Query, ok, err, pg, SqlState, UsageRow, Error}
use micro_manus_services.Db.Statements.{has_user, is_thread, is_run}
use micro_manus_services.Llm.Types.{NormUsage}
use micro_manus_services.Models.{Pricing, ModelEntry, get_model}

abbrev pub priced : Pricing → NormUsage → ℕ
priced p u =
    u.input_tokens * p.input
    + u.output_tokens * p.output
    + u.cache_read_tokens * p.cache_read
    + u.cache_write_tokens * p.cache_write

abbrev cost_of : Option ModelEntry → NormUsage → ℕ
cost_of none u = 0
cost_of (some m) u = priced m.pricing u

-- `cost`
unfoldable pub cost : Text → NormUsage → ℕ
cost model u = cost_of (get_model model) u

-- The rounding of `numeric(12,6)`: to the nearest 100 units, halves up.
abbrev pub stored_cost : ℕ → ℕ
stored_cost c = (c + 50) / 100 * 100

-- The largest value of `numeric(12,6)`, 999999.999999 dollars.
abbrev pub numeric_max : ℕ
numeric_max = 99999999999900

abbrev pub usage_row : ℕ → ℕ → ℕ → Text → NormUsage → ℕ → UsageRow
usage_row user thread run model u c = record {
  user_id = user;
  thread_id = thread;
  run_id = some run;
  model_id = model;
  usage = u;
  cost_usd = stored_cost c;
}

-- `record`: the row is kept, and the cost is returned as it was before rounding.
unfoldable pub record_usage : ℕ → ℕ → ℕ → Text → NormUsage → Query ℕ
record_usage user thread run model u d =
    if ltb numeric_max (stored_cost (cost model u))
    then (err (pg SqlState.numeric_value_out_of_range), d)
    else if has_user user d.users && any (is_thread thread) d.threads && any (is_run run) d.runs
    then (
      ok (cost model u),
      record d { usage_events = usage_row user thread run model u (cost model u) ∷ d.usage_events },
    )
    else (err (pg SqlState.foreign_key_violation), d)

abbrev pub sum_costs : List UsageRow → ℕ
sum_costs [] = 0
sum_costs (u ∷ us) = u.cost_usd + sum_costs us

abbrev pub in_thread : ℕ → UsageRow → Bool
in_thread thread u = u.thread_id == thread

-- `threadCost`
unfoldable pub thread_cost : ℕ → Db → ℕ
thread_cost thread d = sum_costs (keep (in_thread thread) d.usage_events)

-- A usage row is kept, or rejected by a constraint.
pub record_usage_cases :
    (user thread run : ℕ) (model : Text) (u : NormUsage) (d : Db)
    → ((x : Error) × (record_usage user thread run model u d ≡ (err x, d)))
      ⊎ (record_usage user thread run model u d ≡ (
        ok (cost model u),
        record d {
          usage_events = usage_row user thread run model u (cost model u) ∷ d.usage_events;
        },
      ))
record_usage_cases user thread run model u d =
    elim (Bool-cases (ltb numeric_max (stored_cost (cost model u)))) [
      | inl big ↦ inl (pg SqlState.numeric_value_out_of_range, unfold record_usage in rw big)
      | inr fits ↦
          elim (Bool-cases (
            has_user user d.users && any (is_thread thread) d.threads && any (is_run run) d.runs)) [
              | inl known ↦ inr (unfold record_usage in rw fits (rw known))
              | inr absent ↦
                  inl
                    (pg SqlState.foreign_key_violation, unfold record_usage in rw fits (rw absent))
            ]
    ]
