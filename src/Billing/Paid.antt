-- ===== src/Billing/Paid.antt =====
-- A purchase from the page of src/billing/billing.service.ts to the credits.
use micro_manus_services.Base.{
  ℕ, ◌≡◌, refl, sym, ap, ◌∙◌, ◌⊎◌, inl, inr, true, false, Option, none, some, List, [], ◌∷◌, arith,
  Bool-cases, Text, codes, take, keep, find, update_where,
}
use micro_manus_services.Base.Int.{ℤ, ◌+ℤ◌}
use micro_manus_services.Db.{Db, Result, ok, err, Error, UserRow, LedgerRow}
use micro_manus_services.Db.Statements.{is_user, add_to_credits, has_user}
use micro_manus_services.Ledger.Sound.{credited}
use micro_manus_services.Config.{Env, env}
use micro_manus_services.Billing.{
  Config, ConstructEvent, Checkout, session_completed, handle_webhook, credits, purchase_row,
  owned_by, apply_checkout,
}
use micro_manus_services.Billing.Webhook.{webhook_tx_cases, seen, noted}
use micro_manus_services.Billing.Payment.{
  CheckoutRequest, create_checkout, create_with, create_for, checkout_request,
}

find-credited :
    (user : ℕ) (delta : ℤ) (us : List UserRow)
    → has_user user us ≡ true
    → (u : UserRow) × (find (is_user user) us ≡ some u)
      × (find (is_user user) (update_where (is_user user) (add_to_credits delta) us)
          ≡ some (add_to_credits delta u))
find-credited user delta [] h = absurd cc
find-credited user delta (u ∷ us) h = elim (Bool-cases (is_user user u)) [
  | inl hit ↦ (u, ground (arith, hit), rw hit (rw hit refl))
  | inr miss ↦
      let rest = find-credited user delta us (ground (arith, h, miss)) in
      (rest.0, rw miss rest.1, rw miss (rw miss rest.2))
]

-- The balance that the user is shown has gone up by the credits, and the purchase leads the ledger
-- rows.
pub record IsPaid (user : ℕ) (e : LedgerRow) (d d' : Db) : Type 0 where
  pub account : UserRow
  pub found : find (is_user user) d.users ≡ some account
  pub shown :
      credits user d'
      ≡ (ok (account.credits +ℤ e.delta, take 50 (e ∷ keep (owned_by user) d.credit_ledger)), d')

credited-IsPaid :
    (event user session : ℕ) (amount : ℤ) (d : Db)
    → has_user user d.users ≡ true
    → IsPaid user
        (purchase_row user amount session)
        d
        (credited (purchase_row user amount session) (noted event d))
unfolding credits
credited-IsPaid event user session amount d h =
    let r = find-credited user amount d.users h in
    record { account = r.0; found = r.1; shown = rw r.2 (ground arith) }

module _ (c : Config) (settings : Env) (shown : ℤ → Text)
    (create : (key : Text) → CheckoutRequest → Result (Option Text))
    (construct : ConstructEvent) where
  -- Where a page is made, it is for a request that names the user.
  request-user :
      (key : Text) (user : ℕ) (page : Option Text)
      → c.stripe_key ≡ some key
      → create_checkout c settings shown create user ≡ ok page
      → (r : CheckoutRequest) × (create key r ≡ ok page) × (r.user_id ≡ user)
  unfolding create_checkout
  request-user key user page k h =
      go (env settings (codes "APP_URL") none)
        (ap (λ o. create_with c settings shown create o user) (sym k) ∙ h)
    where
      go :
          (app_url : Result Text)
          → create_for c settings shown create key user app_url ≡ ok page
          → (r : CheckoutRequest) × (create key r ≡ ok page) × (r.user_id ≡ user)
      go (ok app_url) e = (checkout_request c settings shown create user app_url, e, refl)
      go (err x) e = absurd cc

  apply_checkout-IsPaid :
      (s : Checkout) (user : ℕ) (d : Db)
      → seen s.event_id d ≡ false
      → ((x : Error) × (apply_checkout c s (some user) d ≡ (err x, d)))
        ⊎ ((apply_checkout c s (some user) d).0 ≡ ok tt
            × IsPaid user
                (purchase_row user c.credits_per_purchase s.session_id)
                d
                (apply_checkout c s (some user) d).1)
  apply_checkout-IsPaid s user d new =
      elim (webhook_tx_cases s.event_id (purchase_row user c.credits_per_purchase s.session_id) d) [
        | inl (old, e) ↦ absurd (ground (arith, old, new))
        | inr (inl (x, e)) ↦ inl (x, e)
        | inr (inr (a, e)) ↦ inr (
            rw e
              (refl, credited-IsPaid s.event_id user s.session_id c.credits_per_purchase d a.known))
      ]

  -- Suppose a user is given a page to pay on, and Stripe says that the checkout is complete and
  -- names the user of the request for which it made the page. If the event is new, then either the
  -- delivery fails and changes nothing, so that Stripe sends it again, or the user who asked for
  -- the page has the credits of a purchase more and is shown it first in the ledger.
  pub create_checkout-IsPaid :
      (key secret body signature : Text) (user : ℕ) (page : Option Text) (s : Checkout) (d : Db)
      → c.stripe_key ≡ some key
      → c.webhook_secret ≡ some secret
      → create_checkout c settings shown create user ≡ ok page
      → construct body signature secret ≡ ok (session_completed s)
      → ((r : CheckoutRequest) → create key r ≡ ok page → s.user_id ≡ some r.user_id)
      → seen s.event_id d ≡ false
      → ((x : Error) × (handle_webhook c construct body signature d ≡ (err x, d)))
        ⊎ (((handle_webhook c construct body signature d).0 ≡ ok tt)
            × IsPaid user
                (purchase_row user c.credits_per_purchase s.session_id)
                d
                (handle_webhook c construct body signature d).1)
  unfolding handle_webhook
  create_checkout-IsPaid key secret body signature user page s d k w h event named new =
      let r = request-user key user page k h in
      let u : s.user_id ≡ some user = named r.0 r.1 ∙ ap some r.2 in
      rw w (rw k (rw event (rw u (apply_checkout-IsPaid s user d new))))
