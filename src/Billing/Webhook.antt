-- ===== src/Billing/Webhook.antt =====
-- The deliveries of Stripe to src/billing, branch by branch and repeated.
use micro_manus_services.Base.{
  ℕ, ◌≡◌, refl, ◌⊎◌, inl, inr, Bool, true, Option, none, some, ◌∷◌, arith, ◌==◌, Bool-cases,
  Option-cases, Text, any,
}
use micro_manus_services.Base.Int.{ℤ}
use micro_manus_services.Db.{Db, ok, err, Error, tx, LedgerRow}
use micro_manus_services.Ledger.Sound.{IsSound, IsAccepted, grant_cases, credited, credited-IsSound}
use micro_manus_services.Billing.{
  other_type, session_completed, purchase_row, webhook_tx, insert_event, Config, ConstructEvent,
  handle_webhook, Result, StripeEvent, verified, apply_result, apply_checkout,
}

abbrev pub seen : ℕ → Db → Bool
seen event d = any (λ e. e == event) d.stripe_events

abbrev pub noted : ℕ → Db → Db
noted event d = record d { stripe_events = event ∷ d.stripe_events }

-- How the transaction ends: an event that was seen, a rejected write, or one grant.
pub webhook_tx_cases :
    (event : ℕ) (e : LedgerRow) (d : Db)
    → ((seen event d ≡ true) × (tx (webhook_tx event e) d ≡ (ok tt, d)))
      ⊎ ((x : Error) × (tx (webhook_tx event e) d ≡ (err x, d)))
      ⊎ (IsAccepted e d × (tx (webhook_tx event e) d ≡ (ok tt, credited e (noted event d))))
webhook_tx_cases event e d = elim (Bool-cases (seen event d)) [
  | inl old ↦ inl (old, unfold webhook_tx insert_event in ground arith)
  | inr new ↦ elim (grant_cases e (noted event d)) [
    | inl (x, d', failed) ↦ inr (inl (x, unfold webhook_tx insert_event in ground arith))
    | inr (r, a, granted) ↦ inr (
        inr (
          record { fits = a.fits; known = a.known },
          unfold webhook_tx insert_event in ground arith,
        ))
  ]
]

webhook_tx-IsSound :
    (event user : ℕ) (credits : ℤ) (session : ℕ) (d : Db)
    → IsSound d
    → IsSound (tx (webhook_tx event (purchase_row user credits session)) d).1
webhook_tx-IsSound event user credits session d v =
    elim (webhook_tx_cases event (purchase_row user credits session) d) [
      | inl (old, e) ↦ rw e v
      | inr (inl (x, e)) ↦ rw e v
      | inr (inr (a, e)) ↦ rw e (
          credited-IsSound (purchase_row user credits session) (noted event d) (refl, refl)
            (record { fits = a.fits; known = a.known })
            (record { balanced = v.balanced; charged = v.charged; exclusive = v.exclusive }))
    ]

module _ (c : Config) (construct : ConstructEvent) where
  apply_result-IsSound :
      (r : Result StripeEvent) (d : Db) → IsSound d → IsSound (apply_result c r d).1
  apply_result-IsSound (err e) d v = v
  apply_result-IsSound (ok other_type) d v = v
  apply_result-IsSound (ok (session_completed s)) d v = elim (Option-cases s.user_id) [
    | inl e ↦ rw (e, apply_checkout) v
    | inr (user, e) ↦
        rw (e, apply_checkout)
          (webhook_tx-IsSound s.event_id user c.credits_per_purchase s.session_id d v)
  ]

  -- No delivery, valid or forged, first or repeated, takes credits out of step with the ledger.
  pub handle_webhook-IsSound :
      (body signature : Text) (d : Db)
      → IsSound d
      → IsSound (handle_webhook c construct body signature d).1
  unfolding handle_webhook
  handle_webhook-IsSound body signature d v = go c.webhook_secret c.stripe_key
    where
      go : (secret key : Option Text) → IsSound (verified c secret key construct body signature d).1
      go none key = v
      go (some secret) none = v
      go (some secret) (some key) = apply_result-IsSound (construct body signature secret) d v

  -- A transaction that went through has noted its event.
  webhook_tx-seen :
      (event : ℕ) (e : LedgerRow) (d d' : Db)
      → (tx (webhook_tx event e) d).0 ≡ ok tt
      → d'.stripe_events ≡ (tx (webhook_tx event e) d).1.stripe_events
      → tx (webhook_tx event e) d' ≡ (ok tt, d')
  webhook_tx-seen event e d d' h k = elim (webhook_tx_cases event e d) [
    | inl (old, q) ↦ unfold webhook_tx insert_event in ground arith
    | inr (inl (x, q)) ↦ absurd (ground arith)
    | inr (inr (a, q)) ↦ unfold webhook_tx insert_event in ground arith
  ]

  apply_result_again :
      (r : Result StripeEvent) (d d' : Db)
      → (apply_result c r d).0 ≡ ok tt
      → d'.stripe_events ≡ (apply_result c r d).1.stripe_events
      → apply_result c r d' ≡ (ok tt, d')
  apply_result_again (err e) d d' h k = cc
  apply_result_again (ok other_type) d d' h k = refl
  apply_result_again (ok (session_completed s)) d d' h k = go s.user_id h k
    where
      go :
          (user : Option ℕ)
          → (apply_checkout c s user d).0 ≡ ok tt
          → d'.stripe_events ≡ (apply_checkout c s user d).1.stripe_events
          → apply_checkout c s user d' ≡ (ok tt, d')
      go none h k = refl
      go (some user) h k = webhook_tx-seen s.event_id _ d d' h k

  -- Once a delivery has been accepted, the same delivery changes nothing, whatever else has
  -- happened since to the database, so long as the table of seen events is as the first delivery
  -- left it.
  pub webhook_idempotent :
      (body signature : Text) (d d' : Db)
      → (handle_webhook c construct body signature d).0 ≡ ok tt
      → d'.stripe_events ≡ (handle_webhook c construct body signature d).1.stripe_events
      → handle_webhook c construct body signature d' ≡ (ok tt, d')
  unfolding handle_webhook
  webhook_idempotent body signature d d' = go c.webhook_secret c.stripe_key
    where
      go :
          (secret key : Option Text)
          → (verified c secret key construct body signature d).0 ≡ ok tt
          → d'.stripe_events ≡ (verified c secret key construct body signature d).1.stripe_events
          → verified c secret key construct body signature d' ≡ (ok tt, d')
      go none key h k = cc
      go (some secret) none h k = cc
      go (some secret) (some key) h k =
          apply_result_again (construct body signature secret) d d' h k
