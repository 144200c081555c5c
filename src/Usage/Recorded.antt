-- ===== src/Usage/Recorded.antt =====
-- What a recorded turn adds to the cost of its thread (src/usage/usage.service.ts).
use micro_manus_services.Base.{ℕ, ◌+◌, ◌≤◌, ◌≡◌, refl, ◌≢◌, inl, inr, true, ◌∷◌, arith, ◌==◌, Text}
use micro_manus_services.Db.{Db, ok}
use micro_manus_services.Llm.Types.{NormUsage}
use micro_manus_services.Usage.Cost.{
  cost, stored_cost, record_usage, record_usage_cases, thread_cost, usage_row,
}

eq_refl : (n : ℕ) → (n == n) ≡ true
eq_refl n = ground arith

stored_cost_near : (c : ℕ) → (stored_cost c ≤ c + 50) × (c ≤ stored_cost c + 50)
stored_cost_near c = (omega arith, omega arith)

-- A turn that is recorded returns its exact cost, adds that cost to its thread up to half a
-- millionth of a dollar, and adds nothing to another thread.
pub record_usage-thread_cost :
    (user thread other run : ℕ) (model : Text) (u : NormUsage) (d : Db) (c : ℕ)
    → thread ≢ other
    → (record_usage user thread run model u d).0 ≡ ok c
    → (c ≡ cost model u)
      × (thread_cost thread (record_usage user thread run model u d).1
          ≤ thread_cost thread d + c + 50)
      × (thread_cost thread d + c
          ≤ thread_cost thread (record_usage user thread run model u d).1 + 50)
      × (thread_cost other (record_usage user thread run model u d).1 ≡ thread_cost other d)
unfolding thread_cost
record_usage-thread_cost user thread other run model u d c ne h =
    elim (record_usage_cases user thread run model u d) [
      | inl (x, e) ↦ absurd (ground (arith, h, e))
      | inr e ↦ (
        paid e,
        rw e (omega (arith, own, near.0, paid e)),
        rw e (omega (arith, own, near.1, paid e)),
        rw e foreign,
      )
    ]
  where
    after : Db
    after = record d {
      usage_events = usage_row user thread run model u (cost model u) ∷ d.usage_events;
    }

    near :
        (stored_cost (cost model u) ≤ cost model u + 50)
        × (cost model u ≤ stored_cost (cost model u) + 50)
    near = stored_cost_near (cost model u)

    paid : record_usage user thread run model u d ≡ (ok (cost model u), after) → c ≡ cost model u
    paid e = ground (arith, h, e)

    own : thread_cost thread after ≡ stored_cost (cost model u) + thread_cost thread d
    own = rw (eq_refl thread) refl

    foreign : thread_cost other after ≡ thread_cost other d
    foreign = ground arith
