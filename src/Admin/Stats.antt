-- ===== src/Admin/Stats.antt =====
-- The two queries of src/admin/admin.controller.ts. Costs are in units of 10⁻⁸ US dollars; `ILIKE`
-- is a parameter, and the columns of a user that are only shown are left out.
use micro_manus_services.Base.{
  ℕ, ◌+◌, Bool, true, false, ◌||◌, Option, none, some, List, [], ◌∷◌, ◌++◌, map, ltb, ◌==◌, Text,
  length, take, keep,
}
use micro_manus_services.Base.Int.{pos_part, neg_part}
use micro_manus_services.Base.Chars.{trim}
use micro_manus_services.Db.{Db, UserRow, RunStatus, LedgerRow, Reason}

unfoldable pub sum_of : {A : Type 0} → (A → ℕ) → List A → ℕ
sum_of f [] = 0
sum_of f (x ∷ xs) = f x + sum_of f xs

abbrev count : {A : Type 0} → (A → Bool) → List A → ℕ
count p xs = length (keep p xs)

abbrev is_failed : RunStatus → Bool
is_failed RunStatus.failed = true
is_failed _ = false

abbrev is_purchase : Reason → Bool
is_purchase Reason.purchase = true
is_purchase _ = false

abbrev is_coupon : Reason → Bool
is_coupon Reason.coupon = true
is_coupon _ = false

pub record AdminStats : Type 0 where
  pub users : ℕ
  pub runs : ℕ
  pub failed_runs : ℕ
  pub artifacts : ℕ
  pub llm_cost : ℕ
  pub purchases : ℕ
  pub coupon_redemptions : ℕ
  pub credits_granted : ℕ
  pub credits_spent : ℕ

-- `SUM(delta)` of the rows with `delta > 0`, and `-SUM(delta)` of those with `delta < 0`.
unfoldable pub credits_granted : List LedgerRow → ℕ
unfolding sum_of
credits_granted es = sum_of (λ e. pos_part e.delta) es

unfoldable pub credits_spent : List LedgerRow → ℕ
unfolding sum_of
credits_spent es = sum_of (λ e. neg_part e.delta) es

unfoldable pub admin_stats : Db → AdminStats
unfolding credits_granted credits_spent
admin_stats d = record {
  users = length d.users;
  runs = length d.runs;
  failed_runs = count (λ r. is_failed r.status) d.runs;
  artifacts = length d.artifacts;
  llm_cost = sum_of (λ u. u.cost_usd) d.usage_events;
  purchases = count (λ e. is_purchase e.reason) d.credit_ledger;
  coupon_redemptions = count (λ e. is_coupon e.reason) d.credit_ledger;
  credits_granted = credits_granted d.credit_ledger;
  credits_spent = credits_spent d.credit_ledger;
}

pub record AdminUser : Type 0 where
  pub row : UserRow
  pub threads : ℕ
  pub runs : ℕ
  pub cost : ℕ
  pub has_key : Bool

abbrev admin_user : Db → UserRow → AdminUser
unfolding sum_of
admin_user d u = record {
  row = u;
  threads = count (λ t. t.user_id == u.id) d.threads;
  runs = count (λ r. r.user_id == u.id) d.runs;
  cost = sum_of (λ e. e.cost_usd) (keep (λ e. e.user_id == u.id) d.usage_events);
  has_key = ltb 0 (count (λ k. k.user_id == u.id) d.api_keys);
}

-- `search?.trim() ? `%${search.trim()}%` : null`
abbrev pattern_of : Option Text → Option Text
unfolding trim
pattern_of none = none
pattern_of (some t) = elim (trim t) [ [] ↦ none | c ∷ cs ↦ some (37 ∷ c ∷ cs ++ 37 ∷ []) ]

module _ (ilike : Text → Text → Bool) where
  abbrev named : Text → Option Text → Bool
  named pattern none = false
  named pattern (some n) = ilike n pattern

  abbrev matches : Option Text → UserRow → Bool
  matches none u = true
  matches (some pattern) u = ilike u.email pattern || named pattern u.name

  -- The newest hundred.
  unfoldable pub admin_users : Option Text → Db → List AdminUser
  unfolding pattern_of admin_user
  admin_users search d = map (admin_user d) (take 100 (keep (matches (pattern_of search)) d.users))
