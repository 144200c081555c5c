-- ===== src/Chat/Charge.antt =====
-- The transaction of `sendMessage` in src/agent/chat.controller.ts, branch by branch, and the
-- invariant of the database.
use micro_manus_services.Base.{
  update_where-none, ℕ, ◌≡◌, refl, ◌≢◌, ◌⊎◌, inl, inr, false, none, some, List, [], ◌∷◌, map, keep,
  any, update_where,
}
use micro_manus_services.Base.Int.{ℤ, negsuc, ◌+ℤ◌}
use micro_manus_services.Db.{
  Db, ok, err, Error, Reason, Ref, MessageRow, RunRow, LedgerRow, UserRow, tx,
}
use micro_manus_services.Db.Statements.{
  is_run, runs_in, users_error, add_to_credits, update_credits, is_user, insert_message_cases,
  insert_run_cases, insert_ledger_cases, update_credits_cases,
}
use micro_manus_services.Ledger.{debits, refunds}
use micro_manus_services.Ledger.Balance.{can_pay, keep-has_user, update-can_pay, credit-IsBalanced}
use micro_manus_services.Ledger.Charges.{start-IsCharged}
use micro_manus_services.Ledger.Sound.{IsSound}
use micro_manus_services.Chat.Transaction.{
  SendMessage, send_tx, after_deduction, new_run, user_message,
}

module _ (run message now user thread : ℕ) (dto : SendMessage) where
  abbrev pub charge_row : LedgerRow
  charge_row = record {
    user_id = user;
    delta = negsuc 0;
    reason = Reason.debit;
    ref_id = Ref.ref_run run;
  }

  abbrev charged_users : Db → List UserRow
  charged_users d = update_where (can_pay user) (add_to_credits (negsuc 0)) d.users

  -- The database after a run is charged and started.
  abbrev pub sent : Db → Db
  sent d = record d {
    users = charged_users d;
    messages = user_message message thread dto.content ∷ d.messages;
    runs = new_run run thread user dto.model_id now ∷ d.runs;
    credit_ledger = charge_row ∷ d.credit_ledger;
  }

  -- What the guard and the constraints have checked by then.
  pub record CanSend (d : Db) : Type 0 where
    pub payer : keep (can_pay user) d.users ≢ []
    pub fits : users_error (charged_users d) ≡ none
    pub fresh : any (is_run run) d.runs ≡ false
    pub idle : any (runs_in thread) d.runs ≡ false

  -- How the transaction ends: no credit, an error, or one charged run.
  abbrev pub Ending : Db → Type 0
  Ending d =
      ((keep (can_pay user) d.users ≡ [])
        × (tx (send_tx run message now user thread dto) d ≡ (ok none, d)))
      ⊎ ((x : Error) × (tx (send_tx run message now user thread dto) d ≡ (err x, d)))
      ⊎ ((c : ℤ) × CanSend d
          × (tx (send_tx run message now user thread dto) d ≡ (ok (some (run, c)), sent d)))

  payers : (us : List UserRow) → List ℤ
  payers us = map (λ u. u.credits +ℤ negsuc 0) (keep (can_pay user) us)

  after : Db → Db
  after d = record d { users = charged_users d }

  -- The rest of the transaction fails, or makes its three insertions.
  after_deduction_cases :
      (c : ℤ) (cs : List ℤ) (d : Db)
      → ((x : Error) × (d' : Db) × (after_deduction run message now user thread dto (c ∷ cs) d
            ≡ (err x, d')))
        ⊎ ((any (is_run run) d.runs ≡ false)
            × (any (runs_in thread) d.runs ≡ false)
            × (after_deduction run message now user thread dto (c ∷ cs) d ≡ (
              ok (some (run, c)),
              record d {
                messages = user_message message thread dto.content ∷ d.messages;
                runs = new_run run thread user dto.model_id now ∷ d.runs;
                credit_ledger = charge_row ∷ d.credit_ledger;
              },
            )))
  after_deduction_cases c cs d = elim (insert_message_cases m d) [
    | inl (x, e) ↦ inl (x, d, rw e)
    | inr e ↦ elim (insert_run_cases r d1) [
      | inl (x, f) ↦ inl (x, d1, rw e (rw f))
      | inr (fresh, idle, f) ↦ elim (insert_ledger_cases charge_row d2) [
        | inl (x, g) ↦ inl (x, d2, rw e (rw f (rw g)))
        | inr g ↦ inr (fresh, idle, rw e (rw f (rw g)))
      ]
    ]
  ]
    where
      m : MessageRow
      m = user_message message thread dto.content

      r : RunRow
      r = new_run run thread user dto.model_id now

      d1 : Db
      d1 = record d { messages = m ∷ d.messages }

      d2 : Db
      d2 = record d1 { runs = r ∷ d1.runs }

  pub send_tx_cases : (d : Db) → Ending d
  unfolding send_tx payers after
  send_tx_cases d = elim (update_credits_cases (can_pay user) (negsuc 0) d) [
    | inl (x, e) ↦ inr (inl (x, rw e))
    | inr (fits, e) ↦ go fits e (keep (can_pay user) d.users) refl
  ]
    where
      go :
          users_error (charged_users d) ≡ none
          → update_credits (can_pay user) (negsuc 0) d ≡ (ok (payers d.users), after d)
          → (paying : List UserRow) → keep (can_pay user) d.users ≡ paying
          → Ending d
      go fits e [] none_pays = inl (
        none_pays,
        rw e (
            rw (none_pays, after_deduction)
              (rw (update_where-none (can_pay user) (add_to_credits (negsuc 0)) d.users none_pays)
                refl)),
      )
      go fits e (u ∷ us) pays =
          elim (after_deduction_cases (u.credits +ℤ negsuc 0) (payers us) (after d)) [
            | inl (x, d', f) ↦ inr (inl (x, rw e (rw pays (rw f))))
            | inr (fresh, idle, f) ↦ inr (
                inr (
                  u.credits +ℤ negsuc 0,
                  record { payer = λ q. cc; fits = fits; fresh = fresh; idle = idle },
                  rw e (rw pays (rw f)),
                ))
          ]

  -- A charged run keeps the invariant of the database, if its key has never been charged before.
  pub sent-IsSound :
      (d : Db)
      → CanSend d
      → debits run d.credit_ledger ≡ 0
      → refunds run d.credit_ledger ≡ 0
      → IsSound d
      → IsSound (sent d)
  sent-IsSound d c no_debit no_refund v = record {
    balanced = rw same (
        credit-IsBalanced charge_row d.users d.credit_ledger v.balanced
          (keep-has_user user d.users c.payer) (rw (← same) c.fits));
    charged =
        start-IsCharged (new_run run thread user dto.model_id now) charge_row d.runs d.credit_ledger
          refl refl refl c.fresh no_debit no_refund v.charged;
    exclusive = (λ _. c.idle, v.exclusive);
  }
    where
      same : charged_users d ≡ update_where (is_user user) (add_to_credits (negsuc 0)) d.users
      same = update-can_pay user (negsuc 0) d.users v.balanced.keys c.payer

  -- Whether it charges, refuses or fails, the transaction keeps the invariant.
  pub send_tx-IsSound :
      (d : Db)
      → debits run d.credit_ledger ≡ 0
      → refunds run d.credit_ledger ≡ 0
      → IsSound d
      → IsSound (tx (send_tx run message now user thread dto) d).1
  send_tx-IsSound d no_debit no_refund v = elim (send_tx_cases d) [
    | inl (broke, e) ↦ rw e v
    | inr (inl (x, e)) ↦ rw e v
    | inr (inr (c, can, e)) ↦ rw e (sent-IsSound d can no_debit no_refund v)
  ]
