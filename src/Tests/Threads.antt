-- ===== src/Tests/Threads.antt =====
-- Messages and threads at concrete inputs.
use micro_manus_services.Base.{◌⊎◌, none, ℕ, ◌≡◌, refl, true, [], ◌∷◌, codes, any, text_eq}
use micro_manus_services.Base.Int.{pos, negsuc, ◌+ℤ◌}
use micro_manus_services.Db.{ok, err, Error, other}
use micro_manus_services.Db.Statements.{
  update_credits, insert_ledger, insert_message, insert_run, runs_in,
}
use micro_manus_services.Ledger.{balance}
use micro_manus_services.Ledger.Sound.{IsSound}
use micro_manus_services.Models.{get_model}
use micro_manus_services.World.{World}
use micro_manus_services.Agent.Process.{sweep}
use micro_manus_services.Agent.Outcome.{sweep-IsSound}
use micro_manus_services.Chat.Transaction.{SendMessage, send_tx}
use micro_manus_services.Chat.Handlers.{Calls, send_message, assert_thread}
use micro_manus_services.Chat.Sending.{alone, send_message_failed, IsCharged, send_message_accepted}
use micro_manus_services.Tests.Data.{sample, world, opus}

abbrev dto : SendMessage
dto = record { content = codes "And now?"; model_id = opus; attachment_ids = [] }

-- Between the checks and the transaction the sweep fails the other thread's run.
abbrev sweeping : ℕ → World → World
sweeping i w = (sweep 9000000 w).1

sweeping-IsSound : (i : ℕ) (w : World) → IsSound w.db → IsSound (sweeping i w).db
sweeping-IsSound i w v = sweep-IsSound 9000000 w v

abbrev works : Calls
works = record { attached = ok tt; enqueued = ok tt }

-- The queue cannot be reached.
abbrev fault : Error
fault = other none (codes "Connection is closed")

abbrev no_queue : Calls
no_queue = record works { enqueued = err fault }

send_message_failed_example :
    ((send_message 11 21 100 no_queue alone 1 6 dto world).1 ≡ world)
    ⊎ (((no_queue.attached ≡ err fault) ⊎ (no_queue.enqueued ≡ err fault))
        × ((send_message 11 21 100 no_queue alone 1 6 dto world).1.run_jobs ≡ [])
        × IsCharged no_queue 11 21 100 1 6 dto world
            (send_message 11 21 100 no_queue alone 1 6 dto world).1)
unfolding send_message assert_thread get_model text_eq send_tx update_credits insert_message
    insert_run insert_ledger ◌+ℤ◌
send_message_failed_example = send_message_failed no_queue 11 21 100 1 6 dto world fault refl

-- Thread 5 has a running run.
busy : (send_message 11 21 100 works alone 1 5 dto world).1 ≡ world
unfolding send_message assert_thread get_model text_eq
busy = refl

send_message_accepted_example :
    ◌≡◌ {A = ℕ} 11 11
    × ((send_message 11 21 100 works alone 1 6 dto world).1.run_jobs ≡ 11 ∷ [])
    × (any (runs_in 6) (send_message 11 21 100 works alone 1 6 dto world).1.db.runs ≡ true)
    × (balance 1 (send_message 11 21 100 works alone 1 6 dto world).1.db.credit_ledger
        ≡ negsuc 0 +ℤ balance 1 sample.credit_ledger)
unfolding send_message assert_thread get_model text_eq send_tx update_credits insert_message
    insert_run insert_ledger ◌+ℤ◌
send_message_accepted_example = send_message_accepted works 11 21 100 1 6 dto world (11, pos 1) refl
