-- ===== src/Chat/Access.antt =====
-- The handlers of src/agent/chat.controller.ts as a whole: who may act on a thread, what a refused
-- message leaves, and the invariant of the database while other requests act in between.
use micro_manus_services.Base.{
  ℕ, ◌≡◌, refl, ◌⊎◌, inl, inr, Bool, true, false, Option, none, some, List, [], ◌∷◌, ◌==◌,
  Bool-cases, is_some, codes, find, any, update_where, ◌++◌, ⊤,
}
use micro_manus_services.Base.Int.{ℤ}
use micro_manus_services.Db.{Db, Result, ok, err, Error, http, ThreadRow}
use micro_manus_services.Db.Statements.{is_thread, runs_in}
use micro_manus_services.Models.{get_model}
use micro_manus_services.World.{World, Action, pure, ◌>>=◌}
use micro_manus_services.Chat.Transaction.{SendMessage, attach_to_thread, is_attached}
use micro_manus_services.Chat.Charge.{sent, CanSend, send_tx_cases}
use micro_manus_services.Chat.Handlers.{
  assert_thread, send_message, attach_any, caught, in_progress, Calls, enqueue,
}

-- Whether a thread is a user's.
abbrev pub owned_by : ℕ → Option ThreadRow → Bool
owned_by user none = false
owned_by user (some t) = t.user_id == user

abbrev pub owns : ℕ → ℕ → Db → Bool
owns user id d = owned_by user (find (is_thread id) d.threads)

abbrev pub not_found : Error
not_found = http 404 (codes "Thread not found")

pub assert_thread_cases :
    (user id : ℕ) (w : World)
    → ((owns user id w.db ≡ false) × (assert_thread user id w ≡ (err not_found, w)))
      ⊎ ((t : ThreadRow) × (owns user id w.db ≡ true) × (assert_thread user id w ≡ (ok t, w)))
unfolding assert_thread
assert_thread_cases user id w = by_row (find (is_thread id) w.db.threads) refl
  where
    by_row :
        (o : Option ThreadRow)
        → find (is_thread id) w.db.threads ≡ o
        → ((owns user id w.db ≡ false) × (assert_thread user id w ≡ (err not_found, w)))
          ⊎ ((t : ThreadRow) × (owns user id w.db ≡ true) × (assert_thread user id w ≡ (ok t, w)))
    by_row none e = inl (rw e refl, rw e refl)
    by_row (some t) e = elim (Bool-cases (t.user_id == user)) [
      | inl mine ↦ inr (t, rw e mine, rw e (rw mine refl))
      | inr other ↦ inl (rw e other, rw e (rw other refl))
    ]

abbrev pub attach_ids : ℕ → ℕ → List ℕ → Db → Db
attach_ids user thread [] d = d
attach_ids user thread (i ∷ is) d = record d {
  uploads =
      update_where (is_attached user (i ∷ is)) (λ u. record u { thread_id = some thread })
        d.uploads;
}

module _ (calls : Calls) (others : ℕ → World → World) (run message now user thread : ℕ)
    (dto : SendMessage) where
  -- The world that the transaction finds.
  abbrev pub before_charge : World → World
  before_charge w = others 1 (others 0 w)

  abbrev pub after_charge : World → World
  after_charge w =
      others 2 (record (before_charge w) {
        db = sent run message now user thread dto (before_charge w).db;
      })

  abbrev pub linked : List ℕ → World → World
  linked ids w = record w { db = attach_ids user thread ids w.db }

  abbrev pub queued : List ℕ → World → World
  queued ids w = record (linked ids w) { run_jobs = run ∷ w.run_jobs }

  abbrev pub sending : World → Result (ℕ × ℤ) × World
  sending = send_message run message now calls others user thread dto

  -- After the charge: attached and queued, or failed at one of the two calls.
  abbrev pub Ending : Result ⊤ → Result ⊤ → List ℕ → ℤ → World → Result (ℕ × ℤ) × World → Type 0
  Ending p q ids c w y =
      (y ≡ (ok (run, c), queued ids w))
      ⊎ ((x : Error) × (p ≡ err x) × (y ≡ (err x, w)))
      ⊎ ((x : Error) × (q ≡ err x) × (y ≡ (err x, linked ids w)))

  -- Refused at one of three points, with nothing written, or charged.
  abbrev pub Outcome : World → Type 0
  Outcome w =
      ((x : Error) × ((sending w ≡ (err x, w))
          ⊎ (sending w ≡ (err x, others 0 w))
          ⊎ (sending w ≡ (err x, before_charge w))))
      ⊎ ((c : ℤ) × (owns user thread w.db ≡ true)
          × (is_some (get_model dto.model_id) ≡ true)
          × CanSend run message now user thread dto (before_charge w).db
          × Ending calls.attached calls.enqueued dto.attachment_ids c (after_charge w) (sending w))

  abbrev finishing : Result ⊤ → Result ⊤ → ℤ → List ℕ → Action (ℕ × ℤ)
  unfolding attach_to_thread
  finishing p q c ids = do
    attached ← attach_any run message now p user thread ids
    added ← enqueue run message now q run
    pure (run, c)

  finishing-Ending :
      (p q : Result ⊤) (ids : List ℕ) (c : ℤ) (w : World)
      → Ending p q ids c w (finishing p q c ids w)
  unfolding finishing
  finishing-Ending p (ok _) [] c w = inl refl
  finishing-Ending p (err x) [] c w = inr (inr (x, refl, refl))
  finishing-Ending (err x) q (i ∷ is) c w = inr (inl (x, refl, refl))
  finishing-Ending (ok _) (ok _) (i ∷ is) c w = inl refl
  finishing-Ending (ok _) (err x) (i ∷ is) c w = inr (inr (x, refl, refl))

  pub send_message_cases : (w : World) → Outcome w
  unfolding send_message
  send_message_cases w = elim (assert_thread_cases user thread w) [
    | inl (stranger, e) ↦ inl (not_found, inl (rw e refl))
    | inr (t, mine, e) ↦ elim (Bool-cases (is_some (get_model dto.model_id))) [
      | inr unknown ↦
          inl
            (http 404 (codes "Unknown model " ++ dto.model_id), inr (inl (rw e (rw unknown refl))))
      | inl known ↦ elim (Bool-cases (any (runs_in thread) (others 0 w).db.runs)) [
        | inl busy ↦ inl (in_progress run message now, inr (inl (rw e (rw known (rw busy refl)))))
        | inr idle ↦ elim (send_tx_cases run message now user thread dto (before_charge w).db) [
          | inl (broke, f) ↦
              inl (
                http 402 (codes "Out of credits"),
                inr (inr (rw e (rw known (rw idle (rw f refl))))),
              )
          | inr (inl (x, f)) ↦
              inl (caught run message now x, inr (inr (rw e (rw known (rw idle (rw f refl))))))
          | inr (inr (c, can, f)) ↦ inr (
            c,
            mine,
            known,
            can,
            rw e (
                rw known (
                  rw idle (
                    rw f (
                      finishing-Ending calls.attached calls.enqueued dto.attachment_ids c
                        (after_charge w))))),
          )
        ]
      ]
    ]
  ]
