-- ===== src/Tests/Credits.antt =====
-- Purchases, coupons, adjustments and interleavings at concrete inputs.
use micro_manus_services.Base.{
  ◌≡◌, refl, Option, none, some, [], ◌∷◌, map, Text, codes, text_eq, ◌⊎◌,
}
use micro_manus_services.Base.Int.{◌+ℤ◌, pos, negsuc}
use micro_manus_services.Base.Chars.{to_upper_case, trim, to_lower_case}
use micro_manus_services.Db.{Db, Result, ok, err, empty_db, tx, Error}
use micro_manus_services.Ledger.Sound.{IsSound, grant}
use micro_manus_services.Db.Statements.{update_credits, insert_ledger, insert_message, insert_run}
use micro_manus_services.Billing.{
  Config, ConstructEvent, session_completed, redeem, redeem_tx, insert_redemption, handle_webhook,
  webhook_tx, insert_event, purchase_row,
}
use micro_manus_services.Billing.Webhook.{webhook_idempotent, handle_webhook-IsSound}
use micro_manus_services.Billing.Payment.{CheckoutRequest, create_checkout}
use micro_manus_services.Billing.Paid.{IsPaid, create_checkout-IsPaid}
use micro_manus_services.Config.{Env}
use micro_manus_services.Billing.Coupon.{redeem_once, redeem-IsSound}
use micro_manus_services.Admin.{request_grant}
use micro_manus_services.Admin.Grants.{request_grant-IsSound}
use micro_manus_services.Chat.Transaction.{send_tx, create_thread, SendMessage}
use micro_manus_services.System.{
  Steps, none_yet, and_then, message_sent, coupon, sign_in, run_failed, thread_made, key_deleted,
  Steps-IsSound,
}
use micro_manus_services.Auth.Login.{login_with_id_token, Decoded, login_tx, insert_user}
use micro_manus_services.Chat.Sending.{Unused}
use micro_manus_services.Tests.Data.{sample, sample-IsSound, opus, running_run}

abbrev config : Config
config = record {
  credits_per_purchase = pos 10;
  coupon_credits = pos 5;
  stripe_key = some (codes "sk");
  webhook_secret = some (codes "whsec");
}

abbrev construct : ConstructEvent
construct body signature secret =
    ok (session_completed (record { event_id = 50; session_id = 51; user_id = some 1 }))

webhook_idempotent_example :
    handle_webhook config construct
      (codes "{}")
      (codes "t=1")
      (handle_webhook config construct (codes "{}") (codes "t=1") sample).1
    ≡ (ok tt, (handle_webhook config construct (codes "{}") (codes "t=1") sample).1)
unfolding handle_webhook webhook_tx insert_event grant update_credits insert_ledger ◌+ℤ◌
webhook_idempotent_example =
    webhook_idempotent config construct (codes "{}") (codes "t=1") sample
      (handle_webhook config construct (codes "{}") (codes "t=1") sample).1 refl refl

-- A page that tells its user, and Stripe's event for Alice.
abbrev create : (key : Text) → CheckoutRequest → Result (Option Text)
create key r = ok (some (r.user_id ∷ []))

abbrev settings : Env
settings k = some (codes "https://app")

create_checkout-IsPaid_example :
    ((x : Error) × (handle_webhook config construct (codes "{}") (codes "t=1") sample
        ≡ (err x, sample)))
    ⊎ (((handle_webhook config construct (codes "{}") (codes "t=1") sample).0 ≡ ok tt)
        × IsPaid 1
            (purchase_row 1 (pos 10) 51)
            sample
            (handle_webhook config construct (codes "{}") (codes "t=1") sample).1)
unfolding create_checkout
create_checkout-IsPaid_example =
    create_checkout-IsPaid config settings (λ n. []) create construct (codes "sk") (codes "whsec")
      (codes "{}") (codes "t=1") 1 (some (1 ∷ []))
      (record { event_id = 50; session_id = 51; user_id = some 1 }) sample refl refl refl refl
      (λ r e. cc) refl

handle_webhook-IsSound_at_sample :
    IsSound (handle_webhook config construct (codes "{}") (codes "t=1") sample).1
handle_webhook-IsSound_at_sample =
    handle_webhook-IsSound config construct (codes "{}") (codes "t=1") sample sample-IsSound

redeem_once_example :
    (x : _) × (redeem config 1
        (codes " SID_DRDROID")
        (redeem config 1 (codes "sid_drdroid") sample).1
      ≡ (err x, (redeem config 1 (codes "sid_drdroid") sample).1))
unfolding redeem redeem_tx insert_redemption grant update_credits insert_ledger ◌+ℤ◌ text_eq
    to_upper_case trim
redeem_once_example =
    redeem_once config 1 (codes "sid_drdroid") (codes " SID_DRDROID") sample
      (redeem config 1 (codes "sid_drdroid") sample).1 (pos 7) refl refl

redeem-IsSound_at_sample : IsSound (redeem config 1 (codes "sid_drdroid") sample).1
redeem-IsSound_at_sample = redeem-IsSound config 1 (codes "sid_drdroid") sample sample-IsSound

request_grant-IsSound_at_sample : IsSound (request_grant 1 2 (negsuc 0) sample).1
request_grant-IsSound_at_sample = request_grant-IsSound 1 2 (negsuc 0) sample sample-IsSound

abbrev dto : SendMessage
dto = record { content = codes "And now?"; model_id = opus; attachment_ids = [] }

-- A message, then a coupon, then the failure of the run that was there, while a key is deleted.
abbrev interleaved : (b : Db) × Steps sample b
interleaved = (
  _,
  and_then _ _ _
      (and_then _ _ _
        (and_then _ _ _
          (and_then _ _ _ (none_yet sample) (message_sent sample 11 21 100 1 6 dto (refl, refl)))
          (coupon _ config 2 (codes "SID_DRDROID")))
        (key_deleted _ 1 31))
      (run_failed _ running_run (codes "no")),
)

Steps-IsSound_example : IsSound interleaved.0
Steps-IsSound_example = Steps-IsSound sample interleaved.0 interleaved.1 sample-IsSound

abbrev who : Decoded
who = record {
  uid = codes "u";
  sign_in_provider = some (codes "google.com");
  email = some (codes "carol@x.org");
  name = none;
  picture = none;
}

abbrev verify : Text → Result Decoded
verify token = ok who

abbrev no_email : Text → Option Text
no_email uid = none

-- Carol signs in, redeems the coupon and makes a thread.
abbrev carol : Db
carol =
    (create_thread 6 1
      (redeem config 1 (codes "sid_drdroid")
        (login_with_id_token no_email none verify (codes "t") 1 empty_db).1).1).1

abbrev to_carol : Steps empty_db carol
to_carol =
    and_then _ _ _
      (and_then _ _ _
        (and_then _ _ _ (none_yet empty_db) (sign_in empty_db no_email none verify (codes "t") 1))
        (coupon _ config 1 (codes "sid_drdroid")))
      (thread_made _ 6 1)

carol-Unused : Unused 11 carol
unfolding redeem redeem_tx insert_redemption grant update_credits insert_ledger ◌+ℤ◌ text_eq
    to_upper_case trim login_with_id_token login_tx insert_user create_thread to_lower_case
carol-Unused = (refl, refl)

abbrev to_message : Steps empty_db (tx (send_tx 11 21 100 1 6 dto) carol).1
to_message = and_then _ _ _ to_carol (message_sent carol 11 21 100 1 6 dto carol-Unused)

-- Carol has paid for the run.
carol_pays : map (λ u. u.credits) (tx (send_tx 11 21 100 1 6 dto) carol).1.users ≡ pos 4 ∷ []
unfolding send_tx redeem redeem_tx insert_redemption grant update_credits insert_ledger
    insert_message insert_run ◌+ℤ◌ text_eq to_upper_case trim login_with_id_token login_tx
    insert_user create_thread to_lower_case
carol_pays = refl
