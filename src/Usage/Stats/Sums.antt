-- ===== src/Usage/Stats/Sums.antt =====
-- The totals of src/usage/usage.controller.ts are sums over the rows of the user, whatever the
-- grouping.
use micro_manus_services.Base.{◌+◌, ◌≡◌, refl, ap, ◌∙◌, List, [], ◌∷◌, arith, ℕ, map, reverse}
use micro_manus_services.Base.Int.{◌+ℤ◌}
use micro_manus_services.Db.{UsageRow, ThreadRow, Db}
use mathlib.Core.Path.{fun_ext}
use micro_manus_services.Models.{models, Pricing, ModelEntry}
use micro_manus_services.Llm.Types.{NormUsage}
use micro_manus_services.Usage.Cost.{priced}
use micro_manus_services.Usage.Groups.{
  run_costs, add_usage, Tally, no_tally, add_tally, row_tally, Group, group_row, group_rows,
  RunCost,
}
use micro_manus_services.Usage.Stats.{
  thread_stats, rows_of, threads_of, stats, WhatIf, sort_cheap, priced_total, no_totals,
  ThreadStats, roll_up, roll_up_all, push_run, push_runs, insert_thread, sort_threads, Totals,
  total_from, Pricing, ModelEntry, NormUsage,
}

-- The sum over the rows.
abbrev pub sum_rows : List UsageRow → Tally
sum_rows [] = no_tally
sum_rows (u ∷ us) = add_tally (row_tally u) (sum_rows us)

abbrev sum_groups : List Group → Tally
sum_groups [] = no_tally
sum_groups (g ∷ gs) = add_tally g.tally (sum_groups gs)

abbrev pub sum_threads : List ThreadStats → Tally
sum_threads [] = no_tally
sum_threads (t ∷ ts) = add_tally t.tally (sum_threads ts)

group_row-sum :
    (u : UsageRow) (gs : List Group)
    → sum_groups (group_row u gs) ≡ add_tally (row_tally u) (sum_groups gs)
unfolding group_row
group_row-sum u [] = ground arith
group_row-sum u (g ∷ gs) = ground (arith, group_row-sum u gs)

group_rows-sum : (us : List UsageRow) → sum_groups (group_rows us) ≡ sum_rows us
unfolding group_rows
group_rows-sum [] = refl
group_rows-sum (u ∷ us) =
    group_row-sum u (group_rows us) ∙ ap (add_tally (row_tally u)) (group_rows-sum us)

roll_up-sum :
    (ts : List ThreadRow) (g : Group) (xs : List ThreadStats)
    → sum_threads (roll_up ts g xs) ≡ add_tally (sum_threads xs) g.tally
unfolding roll_up
roll_up-sum ts g [] = ground arith
roll_up-sum ts g (x ∷ xs) = ground (arith, roll_up-sum ts g xs)

roll_up_all-sum :
    (ts : List ThreadRow) (gs : List Group) (xs : List ThreadStats)
    → sum_threads (roll_up_all ts gs xs) ≡ add_tally (sum_threads xs) (sum_groups gs)
unfolding roll_up_all
roll_up_all-sum ts [] xs = ground arith
roll_up_all-sum ts (g ∷ gs) xs =
    ground (arith, roll_up_all-sum ts gs (roll_up ts g xs), roll_up-sum ts g xs)

push_run-sum : (r : RunCost) (xs : List ThreadStats) → sum_threads (push_run r xs) ≡ sum_threads xs
unfolding push_run
push_run-sum r [] = refl
push_run-sum r (x ∷ xs) = ground (arith, push_run-sum r xs)

push_runs-sum :
    (rs : List RunCost) (xs : List ThreadStats) → sum_threads (push_runs rs xs) ≡ sum_threads xs
unfolding push_runs
push_runs-sum [] xs = refl
push_runs-sum (r ∷ rs) xs = push_runs-sum rs (push_run r xs) ∙ push_run-sum r xs

insert_thread-sum :
    (t : ThreadStats) (xs : List ThreadStats)
    → sum_threads (insert_thread t xs) ≡ add_tally t.tally (sum_threads xs)
unfolding insert_thread
insert_thread-sum t [] = refl
insert_thread-sum t (x ∷ xs) = ground (arith, insert_thread-sum t xs)

sort_threads-sum : (xs : List ThreadStats) → sum_threads (sort_threads xs) ≡ sum_threads xs
unfolding sort_threads
sort_threads-sum [] = refl
sort_threads-sum (x ∷ xs) =
    insert_thread-sum x (sort_threads xs) ∙ ap (add_tally x.tally) (sort_threads-sum xs)

total_from-sum :
    (a : Totals) (xs : List ThreadStats)
    → (total_from a xs).tally ≡ add_tally a.tally (sum_threads xs)
unfolding total_from
total_from-sum a [] = ground arith
total_from-sum a (x ∷ xs) = ground (
  arith,
  total_from-sum
      (record {
        tally = add_tally a.tally x.tally;
        cache_saved = a.cache_saved +ℤ x.cache_saved;
        runs = a.runs + x.runs;
      })
      xs,
)

-- What the turns of some rows would have cost at given prices.
abbrev pub sum_priced : Pricing → List UsageRow → ℕ
sum_priced p [] = 0
sum_priced p (u ∷ us) = priced p u.usage + sum_priced p us

abbrev pub repriced : List UsageRow → ModelEntry → WhatIf
repriced us m = record { model_id = m.id; label = m.label; cost = sum_priced m.pricing us }

priced-add : (p : Pricing) (a b : NormUsage) → priced p (add_usage a b) ≡ priced p a + priced p b
priced-add p a b = grind arith

priced-sum : (p : Pricing) (us : List UsageRow) → priced p (sum_rows us).usage ≡ sum_priced p us
priced-sum p [] = omega arith
priced-sum p (u ∷ us) =
    priced-add p u.usage (sum_rows us).usage ∙ ap (λ n. priced p u.usage + n) (priced-sum p us)

thread_stats-sum :
    (user : ℕ) (d : Db) → sum_threads (thread_stats user d) ≡ sum_rows (rows_of user d)
unfolding thread_stats
thread_stats-sum user d =
    sort_threads-sum _
    ∙ push_runs-sum (run_costs [] (reverse (rows_of user d))) _
    ∙ roll_up_all-sum (threads_of user d) (group_rows (rows_of user d)) []
    ∙ ground (arith, group_rows-sum (rows_of user d))

totals-sum : (user : ℕ) (d : Db) → (stats user d).totals.tally ≡ sum_rows (rows_of user d)
unfolding stats
totals-sum user d =
    total_from-sum no_totals (thread_stats user d) ∙ ground (arith, thread_stats-sum user d)

-- The totals of a user's statistics are the sums over the usage rows of that user, of the tokens of
-- each kind and of the costs, and the threads shown add up to the same. The comparison of prices is
-- what the turns of those rows would have cost, turn by turn, at the prices of each model of the
-- registry, cheapest first.
pub stats_sums :
    (user : ℕ) (d : Db)
    → ((stats user d).totals.tally ≡ sum_rows (rows_of user d))
      × (sum_threads (stats user d).threads ≡ sum_rows (rows_of user d))
      × ((stats user d).what_if ≡ sort_cheap (map (repriced (rows_of user d)) models))
unfolding stats
stats_sums user d = (
  totals-sum user d,
  thread_stats-sum user d,
  ap (λ (f : ModelEntry → WhatIf). sort_cheap (map f models)) (fun_ext same),
)
  where
    same :
        (m : ModelEntry)
        → priced_total (stats user d).totals.tally.usage m ≡ repriced (rows_of user d) m
    same m =
        ap (λ n. record { model_id = m.id; label = m.label; cost = n })
          (ap (λ (t : Tally). priced m.pricing t.usage) (totals-sum user d)
            ∙ priced-sum m.pricing (rows_of user d))
