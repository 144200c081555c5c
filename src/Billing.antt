-- ===== src/Billing.antt =====
-- src/billing: paid and coupon credits. Amounts are whole numbers of credits; the two environment
-- variables that set them are the fields of `Config`, read as whole numbers.
pub mod Webhook
pub mod Payment
pub mod Paid
pub mod Coupon
use micro_manus_services.Base.{
  ℕ, ⊤, Bool, true, false, not, Option, none, some, List, [], ◌∷◌, Text, codes, text_eq, head?,
  keep, take, any, find, ◌==◌, ◌&&◌, if◌then◌else◌, zero, suc,
}
use micro_manus_services.Base.Chars.{trim, to_upper_case}
use micro_manus_services.Base.Int.{ℤ, pos, negsuc}
use micro_manus_services.Db.{
  Db, Query, Result, ok, err, Error, http, pg, other, SqlState, Reason, Ref, LedgerRow,
  RedemptionRow, ◌>>=◌, ◌>>◌, pure, throw, throw_if, gets, tx,
}
use micro_manus_services.Db.Statements.{has_user, is_user}
use micro_manus_services.Ledger.Sound.{grant}

pub record Config : Type 0 where
  pub credits_per_purchase : ℤ
  pub coupon_credits : ℤ
  pub stripe_key : Option Text
  pub webhook_secret : Option Text

-- `COUPONS`: one code.
abbrev pub coupon_code : Text
coupon_code = codes "SID_DRDROID"

abbrev pub coupon_grant : Config → Text → Option ℤ
coupon_grant c code = if text_eq code coupon_code then some c.coupon_credits else none

-- `if (!grant)`: an unknown code, or a grant of 0.
abbrev pub usable : Option ℤ → Option ℤ
usable none = none
usable (some (pos zero)) = none
usable (some (pos (suc n))) = some (pos (suc n))
usable (some (negsuc n)) = some (negsuc n)

abbrev pub is_redemption : ℕ → Text → RedemptionRow → Bool
is_redemption user code r = r.user_id == user && text_eq r.code code

-- INSERT INTO redemptions … ON CONFLICT DO NOTHING RETURNING code
unfoldable pub insert_redemption : ℕ → Text → Query Bool
insert_redemption user code d =
    if any (is_redemption user code) d.redemptions
    then (ok false, d)
    else if has_user user d.users
    then (
      ok true,
      record d { redemptions = (record { user_id = user; code = code }) ∷ d.redemptions },
    )
    else (err (pg SqlState.foreign_key_violation), d)

-- `row!.credits`
abbrev pub first_or_throw : List ℤ → Query ℤ
first_or_throw [] = throw (other none (codes "Cannot read properties of undefined"))
first_or_throw (c ∷ cs) = pure c

abbrev pub coupon_row : ℕ → Text → ℤ → LedgerRow
coupon_row user code credits = record {
  user_id = user;
  delta = credits;
  reason = Reason.coupon;
  ref_id = Ref.ref_code code;
}

-- The transaction of `redeem`.
unfoldable pub redeem_tx : ℕ → Text → ℤ → Query ℤ
unfolding insert_redemption
redeem_tx user code credits = do
  inserted ← insert_redemption user code
  throw_if (not inserted) (http 409 (codes "Coupon already redeemed"))
  returned ← grant (coupon_row user code credits)
  first_or_throw returned

abbrev pub redeem_code : Option ℤ → ℕ → Text → Query ℤ
redeem_code none user code = throw (http 400 (codes "Invalid coupon code"))
redeem_code (some credits) user code = tx (redeem_tx user code credits)

unfoldable pub redeem : Config → ℕ → Text → Query ℤ
unfolding redeem_tx
redeem c user raw =
    let code = to_upper_case (trim raw) in redeem_code (usable (coupon_grant c code)) user code

-- A verified Stripe event: a completed checkout with the user of its metadata, or another type.
pub record Checkout : Type 0 where
  pub event_id : ℕ
  pub session_id : ℕ
  pub user_id : Option ℕ

pub data StripeEvent : Type 0 where
  session_completed : Checkout → StripeEvent
  other_type : StripeEvent

-- INSERT INTO stripe_events … ON CONFLICT DO NOTHING RETURNING event_id
unfoldable pub insert_event : ℕ → Query Bool
insert_event id d =
    if any (λ e. e == id) d.stripe_events
    then (ok false, d)
    else (ok true, record d { stripe_events = id ∷ d.stripe_events })

abbrev pub purchase_row : ℕ → ℤ → ℕ → LedgerRow
purchase_row user credits session = record {
  user_id = user;
  delta = credits;
  reason = Reason.purchase;
  ref_id = Ref.ref_session session;
}

abbrev pub grant_once : Bool → LedgerRow → Query ⊤
grant_once false e = pure tt
grant_once true e = grant e >> pure tt

-- The transaction of `handleWebhook`.
unfoldable pub webhook_tx : ℕ → LedgerRow → Query ⊤
unfolding insert_event
webhook_tx event e = do seen ← insert_event event; grant_once seen e

abbrev pub apply_checkout : Config → Checkout → Option ℕ → Query ⊤
apply_checkout c s none = pure tt
apply_checkout c s (some user) =
    tx (webhook_tx s.event_id (purchase_row user c.credits_per_purchase s.session_id))

abbrev pub apply_event : Config → StripeEvent → Query ⊤
apply_event c other_type = pure tt
apply_event c (session_completed s) = apply_checkout c s s.user_id

-- `stripe.webhooks.constructEvent`, of the Stripe library.
abbrev pub ConstructEvent : Type 0
ConstructEvent = (body signature secret : Text) → Result StripeEvent

abbrev pub apply_result : Config → Result StripeEvent → Query ⊤
apply_result c (err e) = throw e
apply_result c (ok event) = apply_event c event

abbrev pub verified : Config → Option Text → Option Text → ConstructEvent → Text → Text → Query ⊤
verified c none key construct body signature =
    throw (http 503 (codes "Webhook secret not configured"))
verified c (some secret) none construct body signature =
    throw (http 503 (codes "Stripe is not configured"))
verified c (some secret) (some key) construct body signature =
    apply_result c (construct body signature secret)

unfoldable pub handle_webhook : Config → ConstructEvent → Text → Text → Query ⊤
unfolding webhook_tx
handle_webhook c construct body signature =
    verified c c.webhook_secret c.stripe_key construct body signature

-- `(e as Error).message`; the texts of Postgres are not told apart.
abbrev pub message_of : Error → Text
message_of (http status m) = m
message_of (pg s) = codes "database error"
message_of (other status m) = m

abbrev as_bad_request : Result ⊤ × Db → Result ⊤ × Db
as_bad_request (ok a, d) = (ok a, d)
as_bad_request (err e, d) = (err (http 400 (message_of e)), d)

abbrev webhook_with : Config → ConstructEvent → Option Text → Option Text → Query ⊤
webhook_with c construct (some body) (some signature) d =
    as_bad_request (handle_webhook c construct body signature d)
webhook_with c construct none signature d = (err (http 400 (codes "Missing signature")), d)
webhook_with c construct (some body) none d = (err (http 400 (codes "Missing signature")), d)

-- `BillingController.webhook`: every failure is a 400, so that Stripe shows it and sends it again.
unfoldable pub webhook : Config → ConstructEvent → Option Text → Option Text → Query ⊤
unfolding handle_webhook
webhook c construct body signature = webhook_with c construct body signature

abbrev pub owned_by : ℕ → LedgerRow → Bool
owned_by user e = e.user_id == user

-- `credits`: the balance and the last 50 ledger rows.
unfoldable pub credits : ℕ → Query (ℤ × List LedgerRow)
credits user d = (
  ok (
    elim (find (is_user user) d.users) [ none ↦ pos 0 | some u ↦ u.credits ],
    take 50 (keep (owned_by user) d.credit_ledger),
  ),
  d,
)
