-- ===== src/Agent/Sse.antt =====
-- src/agent/sse.controller.ts: the stream of a run's events to a browser. Each wait of the handler
-- comes with what arrives meanwhile, and with the database that the awaited query reads.
pub mod Once
pub mod Open
pub mod Ends
pub mod Reload
use micro_manus_services.Base.{
  ℕ, zero, suc, ◌+◌, ◌-◌, ◌*◌, ◌/◌, ◌%◌, ◌≤◌, ◌<◌, max, String, ⊤, ◌≡◌, refl, sym, ap, ◌∙◌, ◌≢◌,
  ◌⊎◌, inl, inr, Bool, true, false, not, ◌&&◌, ◌||◌, Option, none, some, List, [], ◌∷◌, ◌++◌, map,
  reverse, arith, ltb, leb, ◌==◌, if◌then◌else◌, ltb→lt, lt→ltb, leb→le, ==_iff, tests, Bool-cases,
  Option-cases, is_some, Text, codes, length, take, drop, head?, last?, keep, find, any, all,
  update_where, update_where-none, length-append, length-take-le, All, All-append, All-map, text_eq,
}
use micro_manus_services.Base.Int.{ℤ, pos}
use micro_manus_services.Db.{
  Db, Result, ok, err, Error, http, RunRow, RunStatus, LedgerRow, UsageRow,
}
use micro_manus_services.Db.Statements.{is_run, is_user}
use micro_manus_services.Ledger.{is_refund, refers_to}
use micro_manus_services.Usage.Cost.{sum_costs}
use micro_manus_services.RunEvents.{
  RunStep, RunEvent, run_started, run_completed, run_failed, steps_to_events, get_or,
}

-- A message of the run's channel, or the end of the connection by the browser.
pub data Arrival : Type 0 where
  live : RunEvent → Arrival
  hung_up : Arrival

-- What the response has been sent, oldest first. The pings of every 25 seconds are left out.
pub record Connection : Type 0 where
  pub closed : Bool
  pub written : List RunEvent

unfoldable pub send : RunEvent → Connection → Connection
send e c = if c.closed then c else record c { written = c.written ++ e ∷ [] }

unfoldable pub cleanup : Connection → Connection
cleanup c = record c { closed = true }

abbrev pub is_terminal : RunEvent → Bool
is_terminal (RunEvent.run_completed run cost credits) = true
is_terminal (RunEvent.run_failed run error refunded) = true
is_terminal (RunEvent.run_started run thread model) = false
is_terminal (RunEvent.text_delta i t) = false
is_terminal (RunEvent.tool_started i t args) = false
is_terminal (RunEvent.tool_finished i t s ms sources) = false
is_terminal (RunEvent.token_usage i u) = false
is_terminal (RunEvent.cost_updated r t) = false
is_terminal (RunEvent.artifact_created a t title) = false

-- `sub.on('message', …)`, and `req.on('close', cleanup)`.
unfoldable pub on_arrival : Arrival → Connection → Connection
unfolding send cleanup
on_arrival hung_up c = cleanup c
on_arrival (live e) c =
    if c.closed then c else if is_terminal e then cleanup (send e c) else send e c

unfoldable pub arrive : List Arrival → Connection → Connection
unfolding on_arrival
arrive [] c = c
arrive (a ∷ arrivals) c = arrive arrivals (on_arrival a c)

unfoldable pub send_all : List RunEvent → Connection → Connection
unfolding send
send_all [] c = c
send_all (e ∷ es) c = send_all es (send e c)

pub record Wait : Type 0 where
  pub arrivals : List Arrival
  pub db : Db

-- The waits for the subscription (where no message is heard yet), for the steps, for the status and
-- for what the last event holds, and what comes after the handler has returned.
pub record Course : Type 0 where
  pub left_early : Bool
  pub for_steps : Wait
  pub for_status : Wait
  pub for_last : Wait
  pub later : List Arrival

abbrev pub steps_of : Option RunRow → List RunStep
steps_of none = []
steps_of (some r) = r.steps

abbrev pub credits_of : Option ℤ → ℤ
credits_of none = pos 0
credits_of (some c) = c

-- SELECT credits FROM users WHERE id = $1
abbrev pub user_credits : ℕ → Db → Option ℤ
user_credits user d = elim (find (is_user user) d.users) [ none ↦ none | some u ↦ some u.credits ]

abbrev run_id_is : ℕ → Option ℕ → Bool
run_id_is run none = false
run_id_is run (some r) = r == run

-- SELECT SUM(cost_usd) … WHERE run_id = $1; of no rows it is null, which is read as 0.
abbrev pub of_run : ℕ → UsageRow → Bool
of_run run u = run_id_is run u.run_id

abbrev pub run_cost : ℕ → Db → ℕ
run_cost run d = sum_costs (keep (of_run run) d.usage_events)

-- SELECT 1 FROM credit_ledger WHERE reason = 'refund' AND ref_id = $1
abbrev pub is_refund_of : ℕ → LedgerRow → Bool
is_refund_of run e = is_refund e.reason && refers_to run e.ref_id

unfoldable pub refunded : ℕ → Db → Bool
refunded run d = any (is_refund_of run) d.credit_ledger

module _ (user run : ℕ) where
  unfoldable pub completed_event : Db → RunEvent
  completed_event d = run_completed run (run_cost run d) (credits_of (user_credits user d))

  unfoldable pub failed_event : Option Text → Db → RunEvent
  unfolding refunded
  failed_event error d = run_failed run (get_or error (codes "failed")) (refunded run d)

  -- The terminal event of a run that is over, by its fresh status.
  abbrev pub end_by : RunStatus → Option Text → Wait → Connection → Connection
  unfolding send cleanup arrive completed_event failed_event
  end_by RunStatus.done error last c =
      cleanup (send (completed_event last.db) (arrive last.arrivals c))
  end_by RunStatus.failed error last c =
      cleanup (send (failed_event error last.db) (arrive last.arrivals c))
  end_by RunStatus.running error last c = c

  unfoldable pub finish_stream : Option RunRow → Wait → Connection → Connection
  unfolding send cleanup arrive completed_event failed_event
  finish_stream none last c = c
  finish_stream (some r) last c = end_by r.status r.error last c

  unfoldable pub begun : RunRow → Course → Connection
  unfolding send
  begun r k =
      send (run_started r.id r.thread_id r.model_id)
        (record { closed = k.left_early; written = [] })

  -- The replay of the persisted steps.
  unfoldable pub replayed : RunRow → Course → Connection
  unfolding begun arrive send_all steps_to_events
  replayed r k =
      send_all (steps_to_events (steps_of (find (is_run run) k.for_steps.db.runs)))
        (arrive k.for_steps.arrivals (begun r k))

  -- The handler after its check, with what reaches the connection afterwards.
  unfoldable pub stream_run : RunRow → Course → Connection
  unfolding replayed arrive finish_stream
  stream_run r k =
      let fresh = find (is_run run) k.for_status.db.runs in
      arrive k.later (finish_stream fresh k.for_last (arrive k.for_status.arrivals (replayed r k)))

  abbrev pub events_of : Option RunRow → Course → Result Connection
  unfolding stream_run
  events_of none k = err (http 404 (codes "Not Found"))
  events_of (some r) k =
      if r.user_id == user then ok (stream_run r k) else err (http 404 (codes "Not Found"))

  unfoldable pub events : Db → Course → Result Connection
  unfolding stream_run
  events d k = events_of (find (is_run run) d.runs) k
