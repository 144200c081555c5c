-- ===== src/Billing/Payment.antt =====
-- `createCheckout` of src/billing/billing.service.ts, and what a user has paid for. Stripe is a
-- parameter.
use micro_manus_services.Base.{ℕ, Option, none, some, ◌++◌, Text, codes}
use micro_manus_services.Base.Int.{ℤ}
use micro_manus_services.Db.{Result, ok, err, http}
use micro_manus_services.Config.{Env, env}
use micro_manus_services.Billing.{Config}

-- What the library is asked for: one item, in US dollars.
pub record CheckoutRequest : Type 0 where
  pub unit_amount : ℕ
  pub product_name : Text
  pub user_id : ℕ
  pub success_url : Text
  pub cancel_url : Text

abbrev pub price_cents : ℕ
price_cents = 500

-- `shown` is the text of a number.
module _ (c : Config) (settings : Env) (shown : ℤ → Text)
    (create : (key : Text) → CheckoutRequest → Result (Option Text)) where
  abbrev pub checkout_request : ℕ → Text → CheckoutRequest
  checkout_request user app_url = record {
    unit_amount = price_cents;
    product_name =
        codes "MicroManus — " ++ (shown c.credits_per_purchase ++ codes " research credits");
    user_id = user;
    success_url = app_url ++ codes "/paywall?paid=1";
    cancel_url = app_url ++ codes "/paywall";
  }

  abbrev pub create_for : Text → ℕ → Result Text → Result (Option Text)
  create_for key user (err e) = err e
  create_for key user (ok app_url) = create key (checkout_request user app_url)

  abbrev pub create_with : Option Text → ℕ → Result (Option Text)
  create_with none user = err (http 503 (codes "Stripe is not configured"))
  create_with (some key) user = create_for key user (env settings (codes "APP_URL") none)

  -- The address of the page where the user pays.
  unfoldable pub create_checkout : ℕ → Result (Option Text)
  unfolding env
  create_checkout user = create_with c.stripe_key user
