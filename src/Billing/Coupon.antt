-- ===== src/Billing/Coupon.antt =====
-- The redemption of a coupon in src/billing, branch by branch and repeated.
use mathlib.Core.List.{List}
use micro_manus_services.Base.Texts.{text_eq_sound, text_eq_refl}
use micro_manus_services.Billing.{
  coupon_code, coupon_grant, Config, redeem_tx, is_redemption, coupon_row, grant, has_user,
  insert_redemption, other, http, pg, SqlState, usable, redeem, redeem_code, to_upper_case, trim,
}
use micro_manus_services.Base.{
  ℕ, ◌≡◌, refl, ◌⊎◌, inl, inr, Bool, true, false, Option, none, some, List, [], ◌∷◌, arith,
  Bool-cases, Text, codes, any, text_eq,
}
use micro_manus_services.Base.Int.{ℤ}
use micro_manus_services.Db.{Db, ok, err, Error, tx, LedgerRow}
use micro_manus_services.Ledger.Sound.{IsSound, IsAccepted, grant_cases, credited, credited-IsSound}

abbrev redeemed : ℕ → Text → Db → Bool
redeemed user code d = any (is_redemption user code) d.redemptions

abbrev with_redemption : ℕ → Text → Db → Db
with_redemption user code d = record d {
  redemptions = (record { user_id = user; code = code }) ∷ d.redemptions;
}

-- How the coupon transaction ends: an error that changes nothing, or one grant on a first use.
pub redeem_tx_cases :
    (user : ℕ) (code : Text) (credits : ℤ) (d : Db)
    → ((x : Error) × (tx (redeem_tx user code credits) d ≡ (err x, d)))
      ⊎ ((r : ℤ) × (redeemed user code d ≡ false)
          × IsAccepted (coupon_row user code credits) d
          × (tx (redeem_tx user code credits) d
              ≡ (ok r, credited (coupon_row user code credits) (with_redemption user code d))))
redeem_tx_cases user code credits d = elim (Bool-cases (redeemed user code d)) [
  | inl old ↦ inl (
    http 409 (codes "Coupon already redeemed"),
    unfold redeem_tx insert_redemption in ground arith,
  )
  | inr new ↦ elim (Bool-cases (has_user user d.users)) [
    | inr absent ↦
        inl (pg SqlState.foreign_key_violation, unfold redeem_tx insert_redemption in ground arith)
    | inl known ↦ first_use (grant_cases row (with_redemption user code d)) new known
  ]
]
  where
    row : LedgerRow
    row = coupon_row user code credits

    Ends : Type 0
    Ends =
        ((x : Error) × (tx (redeem_tx user code credits) d ≡ (err x, d)))
        ⊎ ((r : ℤ) × (redeemed user code d ≡ false)
            × IsAccepted row d
            × (tx (redeem_tx user code credits) d
                ≡ (ok r, credited row (with_redemption user code d))))

    first_use :
        ((x : Error) × (d' : Db) × (grant row (with_redemption user code d) ≡ (err x, d')))
          ⊎ ((r : List ℤ) × IsAccepted row (with_redemption user code d)
              × (grant row (with_redemption user code d)
                  ≡ (ok r, credited row (with_redemption user code d))))
        → redeemed user code d ≡ false
        → has_user user d.users ≡ true
        → Ends
    first_use (inl (x, d', failed)) new known =
        inl (x, unfold redeem_tx insert_redemption in ground arith)
    first_use (inr ([], a, granted)) new known = inl (
      other none (codes "Cannot read properties of undefined"),
      unfold redeem_tx insert_redemption in ground arith,
    )
    first_use (inr (r ∷ rs, a, granted)) new known = inr (
      r,
      new,
      record { fits = a.fits; known = a.known },
      unfold redeem_tx insert_redemption in ground arith,
    )

module _ (c : Config) (user : ℕ) where
  redeem_code-IsSound :
      (grant : Option ℤ) (code : Text) (d : Db)
      → IsSound d
      → IsSound (redeem_code grant user code d).1
  redeem_code-IsSound none code d v = v
  redeem_code-IsSound (some credits) code d v = elim (redeem_tx_cases user code credits d) [
    | inl (x, e) ↦ rw e v
    | inr (r, new, a, e) ↦ rw e (
        credited-IsSound (coupon_row user code credits) (with_redemption user code d) (refl, refl)
          (record { fits = a.fits; known = a.known })
          (record { balanced = v.balanced; charged = v.charged; exclusive = v.exclusive }))
  ]

  -- Whatever code a user sends, redeeming keeps credits and ledger in step.
  pub redeem-IsSound : (raw : Text) (d : Db) → IsSound d → IsSound (redeem c user raw d).1
  unfolding redeem
  redeem-IsSound raw d v =
      redeem_code-IsSound (usable (coupon_grant c (to_upper_case (trim raw))))
        (to_upper_case (trim raw)) d v

  -- Only the one code has a usable grant.
  usable_code : (code : Text) (n : ℤ) → usable (coupon_grant c code) ≡ some n → code ≡ coupon_code
  usable_code code n h = elim (Bool-cases (text_eq code coupon_code)) [
    | inl hit ↦ text_eq_sound code coupon_code hit
    | inr miss ↦ absurd (ground arith)
  ]

  redeem_code-redeemed :
      (grant : Option ℤ) (code : Text) (d : Db) (r : ℤ)
      → (redeem_code grant user code d).0 ≡ ok r
      → redeemed user code (redeem_code grant user code d).1 ≡ true
  redeem_code-redeemed none code d r h = cc
  redeem_code-redeemed (some credits) code d r h = elim (redeem_tx_cases user code credits d) [
    | inl (x, e) ↦ absurd (ground arith)
    | inr (n, new, a, e) ↦ rw e (ground (arith, text_eq_refl code))
  ]

  redeem_code_refused :
      (grant : Option ℤ) (code : Text) (d : Db)
      → redeemed user code d ≡ true
      → (x : Error) × (redeem_code grant user code d ≡ (err x, d))
  redeem_code_refused none code d h = (http 400 (codes "Invalid coupon code"), refl)
  redeem_code_refused (some credits) code d h = (
    http 409 (codes "Coupon already redeemed"),
    unfold redeem_tx insert_redemption in ground arith,
  )

  -- After one redemption by a user every further code that this user sends is refused and changes
  -- nothing, so long as the table of redemptions is as the first one left it.
  pub redeem_once :
      (raw raw' : Text) (d d' : Db) (r : ℤ)
      → (redeem c user raw d).0 ≡ ok r
      → d'.redemptions ≡ (redeem c user raw d).1.redemptions
      → (x : Error) × (redeem c user raw' d' ≡ (err x, d'))
  unfolding redeem
  redeem_once raw raw' d d' r h k = second (usable (coupon_grant c code')) refl
    where
      code : Text
      code = to_upper_case (trim raw)

      code' : Text
      code' = to_upper_case (trim raw')

      first_code : (g : Option ℤ) → usable (coupon_grant c code) ≡ g → code ≡ coupon_code
      first_code none e = absurd (ground arith)
      first_code (some n) e = usable_code code n e

      second :
          (g : Option ℤ)
          → usable (coupon_grant c code') ≡ g
          → (x : Error) × (redeem_code (usable (coupon_grant c code')) user code' d' ≡ (err x, d'))
      second none e = (http 400 (codes "Invalid coupon code"), rw e)
      second (some n) e = redeem_code_refused (usable (coupon_grant c code')) code' d' (
          rw (usable_code code' n e) (
            rw (first_code (usable (coupon_grant c code)) refl) at
              (rw (← k) at (redeem_code-redeemed (usable (coupon_grant c code)) code d r h))))
