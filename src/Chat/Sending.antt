-- ===== src/Chat/Sending.antt =====
-- What `sendMessage` of src/agent/chat.controller.ts leaves behind, refused or accepted.
use micro_manus_services.Base.{
  ℕ, ◌≡◌, refl, ap, ◌∙◌, ◌⊎◌, inl, inr, true, false, List, [], ◌∷◌, arith, any,
}
use micro_manus_services.Base.Int.{ℤ, negsuc, ◌+ℤ◌}
use micro_manus_services.Db.{Db, ok, err, Error}
use micro_manus_services.Db.Statements.{runs_in}
use micro_manus_services.Ledger.{debits, refunds, balance}
use micro_manus_services.Ledger.Sound.{IsSound}
use micro_manus_services.World.{World}
use micro_manus_services.Chat.Transaction.{SendMessage}
use micro_manus_services.Chat.Charge.{sent-IsSound, CanSend}
use micro_manus_services.Chat.Handlers.{Calls, send_message}
use micro_manus_services.Chat.Access.{
  owns, attach_ids, before_charge, after_charge, linked, send_message_cases, assert_thread_cases,
  not_found,
}

attach_ids-IsSound :
    (user thread : ℕ) (ids : List ℕ) (d : Db) → IsSound d → IsSound (attach_ids user thread ids d)
attach_ids-IsSound user thread [] d v = v
attach_ids-IsSound user thread (i ∷ is) d v = record {
  balanced = v.balanced;
  charged = v.charged;
  exclusive = v.exclusive;
}

attach_ids-runs :
    (user thread : ℕ) (ids : List ℕ) (d : Db) → (attach_ids user thread ids d).runs ≡ d.runs
attach_ids-runs user thread [] d = refl
attach_ids-runs user thread (i ∷ is) d = refl

attach_ids-credit_ledger :
    (user thread : ℕ) (ids : List ℕ) (d : Db)
    → (attach_ids user thread ids d).credit_ledger ≡ d.credit_ledger
attach_ids-credit_ledger user thread [] d = refl
attach_ids-credit_ledger user thread (i ∷ is) d = refl

-- A ledger that says nothing of a run.
abbrev pub Unused : ℕ → Db → Type 0
Unused run d = (debits run d.credit_ledger ≡ 0) × (refunds run d.credit_ledger ≡ 0)

-- Whatever other requests do while a message is handled, if they keep the invariant then so does
-- the handler. The key of the new run must not occur in the ledger yet.
pub send_message-IsSound :
    (calls : Calls) (others : ℕ → World → World) (run message now user thread : ℕ)
    (dto : SendMessage) (w : World)
    → ((i : ℕ) (w : World) → IsSound w.db → IsSound (others i w).db)
    → Unused run (before_charge calls others run message now user thread dto w).db
    → IsSound w.db
    → IsSound (send_message run message now calls others user thread dto w).1.db
send_message-IsSound calls others run message now user thread dto w keeps unused v =
    elim (send_message_cases calls others run message now user thread dto w) [
      | inl (x, inl e) ↦ rw e v
      | inl (x, inr (inl e)) ↦ rw e (keeps 0 w v)
      | inl (x, inr (inr e)) ↦ rw e before
      | inr (c, mine, known, can, ends) ↦ elim ends [
        | inl e ↦ rw e (attach_ids-IsSound user thread dto.attachment_ids _ (after can))
        | inr (inl (x, p, e)) ↦ rw e (after can)
        | inr (inr (x, q, e)) ↦
            rw e (attach_ids-IsSound user thread dto.attachment_ids _ (after can))
      ]
    ]
  where
    before : IsSound (before_charge calls others run message now user thread dto w).db
    before = keeps 1 _ (keeps 0 w v)

    after :
        CanSend run message now user thread dto
          (before_charge calls others run message now user thread dto w).db
        → IsSound (after_charge calls others run message now user thread dto w).db
    after can =
        keeps 2 _ (sent-IsSound run message now user thread dto _ can unused.0 unused.1 before)

-- No other request acts.
abbrev pub alone : ℕ → World → World
alone i w = w

-- A message to a thread that is not the sender's, or that is not there, is answered with a 404, and
-- nothing changes, whatever other requests do.
pub send_message_stranger :
    (calls : Calls) (others : ℕ → World → World) (run message now user thread : ℕ)
    (dto : SendMessage) (w : World)
    → owns user thread w.db ≡ false
    → send_message run message now calls others user thread dto w ≡ (err not_found, w)
unfolding send_message
send_message_stranger calls others run message now user thread dto w h =
    elim (assert_thread_cases user thread w) [
      | inl (stranger, e) ↦ rw e refl
      | inr (t, mine, e) ↦ absurd (ground arith)
    ]

module _ (calls : Calls) (run message now user thread : ℕ) (dto : SendMessage) where
  -- What a charged message leaves, whether it is queued then or not.
  pub record IsCharged (w w' : World) : Type 0 where
    pub running : any (runs_in thread) w'.db.runs ≡ true
    pub charged : balance user w'.db.credit_ledger ≡ negsuc 0 +ℤ balance user w.db.credit_ledger

  charge-IsCharged :
      (w : World) → IsCharged w (after_charge calls alone run message now user thread dto w)
  charge-IsCharged w = record { running = ground arith; charged = ground arith }

  linked-IsCharged :
      (w w' : World)
      → IsCharged w w'
      → IsCharged w (linked calls alone run message now user thread dto dto.attachment_ids w')
  linked-IsCharged w w' h = record {
    running =
        ap (any (runs_in thread)) (attach_ids-runs user thread dto.attachment_ids w'.db)
        ∙ h.running;
    charged =
        ap (balance user) (attach_ids-credit_ledger user thread dto.attachment_ids w'.db)
        ∙ h.charged;
  }

  -- While no other request acts, a message that is answered with an error either leaves the world
  -- as it was, or its error is that of the linking of attachments or of the queue, after the
  -- transaction: then the credit is gone and the run is running, while its job is not queued.
  pub send_message_failed :
      (w : World) (x : Error)
      → (send_message run message now calls alone user thread dto w).0 ≡ err x
      → ((send_message run message now calls alone user thread dto w).1 ≡ w)
        ⊎ (((calls.attached ≡ err x) ⊎ (calls.enqueued ≡ err x))
            × ((send_message run message now calls alone user thread dto w).1.run_jobs ≡ w.run_jobs)
            × IsCharged w (send_message run message now calls alone user thread dto w).1)
  send_message_failed w x h =
      elim (send_message_cases calls alone run message now user thread dto w) [
        | inl (y, inl e) ↦ inl (rw e refl)
        | inl (y, inr (inl e)) ↦ inl (rw e refl)
        | inl (y, inr (inr e)) ↦ inl (rw e refl)
        | inr (c, mine, known, can, ends) ↦ elim ends [
          | inl e ↦ absurd (ground arith)
          | inr (inl (y, p, e)) ↦
              inr (inl (p ∙ ap err (same y _ e)), rw e refl, rw e (charge-IsCharged w))
          | inr (inr (y, q, e)) ↦ inr (
            inr (q ∙ ap err (same y _ e)),
            rw e refl,
            rw e (linked-IsCharged w _ (charge-IsCharged w)),
          )
        ]
      ]
    where
      same :
          (y : Error) (w' : World)
          → send_message run message now calls alone user thread dto w ≡ (err y, w')
          → y ≡ x
      same y w' e = cc

  -- While no other request acts, an accepted message takes one credit off the sender's ledger,
  -- leaves a running run in the thread and queues its job, and the answer names that run.
  pub send_message_accepted :
      (w : World) (r : ℕ × ℤ)
      → (send_message run message now calls alone user thread dto w).0 ≡ ok r
      → (r.0 ≡ run)
        × ((send_message run message now calls alone user thread dto w).1.run_jobs
            ≡ run ∷ w.run_jobs)
        × (any
              (runs_in thread)
              (send_message run message now calls alone user thread dto w).1.db.runs
            ≡ true)
        × (balance user
              (send_message run message now calls alone user thread dto w).1.db.credit_ledger
            ≡ negsuc 0 +ℤ balance user w.db.credit_ledger)
  send_message_accepted w r h =
      elim (send_message_cases calls alone run message now user thread dto w) [
        | inl (y, inl e) ↦ absurd (ground arith)
        | inl (y, inr (inl e)) ↦ absurd (ground arith)
        | inl (y, inr (inr e)) ↦ absurd (ground arith)
        | inr (c, mine, known, can, ends) ↦ elim ends [
          | inr (inl (y, p, e)) ↦ absurd (ground arith)
          | inr (inr (y, q, e)) ↦ absurd (ground arith)
          | inl e ↦
              let k = linked-IsCharged w _ (charge-IsCharged w) in
              (ground arith, rw e refl, rw e k.running, rw e k.charged)
        ]
      ]
