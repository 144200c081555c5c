-- ===== src/Chat/Handlers.antt =====
-- The handlers of src/agent/chat.controller.ts. Where a handler awaits a query, other requests may
-- act: `others` says what they do at each such point of `send_message`.
use micro_manus_services.Base.{
  ℕ, ⊤, Bool, false, not, Option, none, some, List, [], ◌∷◌, ◌==◌, if◌then◌else◌, is_some, codes,
  find, any, ◌++◌,
}
use micro_manus_services.Base.Int.{ℤ}
use micro_manus_services.Db.Statements.{is_thread, is_run, runs_in}
use micro_manus_services.Db.{Result, ok, err, Error, http, pg, SqlState, ThreadRow, RunRow, tx}
use micro_manus_services.Chat.Transaction.{SendMessage, send_tx, attach_to_thread, without_thread}
use micro_manus_services.Models.{get_model}
use micro_manus_services.World.{
  World, Action, pure, throw, gets, on_db, ◌>>=◌, ◌>>◌, throw_if, modify, await,
}

abbrev or_not_found : Option ThreadRow → ℕ → Action ThreadRow
or_not_found none user = throw (http 404 (codes "Thread not found"))
or_not_found (some t) user =
    if t.user_id == user then pure t else throw (http 404 (codes "Thread not found"))

unfoldable pub assert_thread : ℕ → ℕ → Action ThreadRow
assert_thread user id = do
  found ← gets (λ w. find (is_thread id) w.db.threads)
  or_not_found found user

-- What comes of the two calls that follow the transaction of `sendMessage`: the statement that links
-- attachments, which writes nothing where it fails, and the addition to the queue.
pub record Calls : Type 0 where
  pub attached : Result ⊤
  pub enqueued : Result ⊤

module _ (run message now : ℕ) where
  abbrev pub in_progress : Error
  in_progress = http 403 (codes "A run is already in progress on this thread")

  -- `catch (e) { if (e.code === '23505') … }`
  abbrev pub caught : Error → Error
  caught (pg SqlState.unique_violation) = in_progress
  caught e = e

  abbrev pub catch_duplicate : {A : Type 0} → Result A × World → Result A × World
  catch_duplicate (ok a, w) = (ok a, w)
  catch_duplicate (err e, w) = (err (caught e), w)

  abbrev pub charged_send : ℕ → ℕ → SendMessage → Action (Option (ℕ × ℤ))
  charged_send user thread dto w =
      catch_duplicate (on_db (tx (send_tx run message now user thread dto)) w)

  abbrev pub or_no_credits : Option (ℕ × ℤ) → Action (ℕ × ℤ)
  or_no_credits none = throw (http 402 (codes "Out of credits"))
  or_no_credits (some r) = pure r

  abbrev pub attach_by : Result ⊤ → ℕ → ℕ → List ℕ → Action ⊤
  attach_by (ok a) user thread ids = on_db (attach_to_thread user thread ids)
  attach_by (err e) user thread ids = throw e

  abbrev pub attach_any : Result ⊤ → ℕ → ℕ → List ℕ → Action ⊤
  attach_any answer user thread [] = pure tt
  attach_any answer user thread (i ∷ is) = attach_by answer user thread (i ∷ is)

  -- `this.queue.add('run', …)`
  abbrev pub enqueue : Result ⊤ → ℕ → Action ⊤
  enqueue (ok a) id = modify (λ w. record w { run_jobs = id ∷ w.run_jobs })
  enqueue (err e) id = throw e

  -- `sendMessage`: who owns the thread, that the model is known and that no run is in progress are
  -- checked before the transaction, so they may have changed when it runs. After it, the linking of
  -- attachments and the queue can still fail, and the transaction is not undone then.
  unfoldable pub send_message : Calls → (ℕ → World → World) → ℕ → ℕ → SendMessage → Action (ℕ × ℤ)
  unfolding assert_thread send_tx attach_to_thread
  send_message calls others user thread dto = do
    owned ← assert_thread user thread
    await (others 0)
    throw_if (not (is_some (get_model dto.model_id)))
        (http 404 (codes "Unknown model " ++ dto.model_id))
    running ← gets (λ w. any (runs_in thread) w.db.runs)
    throw_if running in_progress
    await (others 1)
    sent ← charged_send user thread dto
    result ← or_no_credits sent
    await (others 2)
    attached ← attach_any calls.attached user thread dto.attachment_ids
    added ← enqueue calls.enqueued result.0
    pure result

abbrev owned_run : Option RunRow → ℕ → Bool
owned_run none user = false
owned_run (some r) user = r.user_id == user

-- `cancel` sets a flag that the worker reads between turns.
unfoldable pub cancel : ℕ → ℕ → Action ⊤
cancel user run = do
  found ← gets (λ w. find (is_run run) w.db.runs)
  throw_if (not (owned_run found user)) (http 404 (codes "Not Found"))
  modify (λ w. record w { cancelled = run ∷ w.cancelled })

unfoldable pub delete_thread : ℕ → ℕ → Action ⊤
unfolding assert_thread
delete_thread user id = do owned ← assert_thread user id; on_db (λ d. (ok tt, without_thread id d))
