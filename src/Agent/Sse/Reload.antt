-- ===== src/Agent/Sse/Reload.antt =====
-- What a browser that opens a run that is over is sent by src/agent/sse.controller.ts.
use micro_manus_services.Base.{
  ℕ, ◌≡◌, refl, sym, ap, ◌∙◌, inl, inr, true, false, Option, some, List, [], ◌∷◌, ◌++◌, arith, ◌==◌,
  ==_iff, Bool-cases, codes, find, any, All,
}
use mathlib.Core.Path.{subst}
use mathlib.Core.List.{append_assoc, append-nil}
use micro_manus_services.Db.{Db, ok, RunRow, RunStatus, LedgerRow}
use micro_manus_services.Db.Statements.{is_run}
use micro_manus_services.Ledger.{refunds, Charged, due}
use micro_manus_services.Ledger.Sound.{IsSound}
use micro_manus_services.RunEvents.{
  RunEvent, steps_to_events, run_started, run_completed, run_failed, get_or,
}
use micro_manus_services.Agent.Sse.{
  Arrival, live, hung_up, Connection, send, cleanup, arrive, send_all, Wait, Course,
  completed_event, failed_event, finish_stream, begun, replayed, stream_run, events, is_refund_of,
  refunded, credits_of, user_credits, run_cost, none,
}

-- A browser to which nothing comes while it is served, and what comes later.
abbrev pub calm : Db → List Arrival → Course
calm d later = record {
  left_early = false;
  for_steps = record { arrivals = []; db = d };
  for_status = record { arrivals = []; db = d };
  for_last = record { arrivals = []; db = d };
  later = later;
}

abbrev holding : List RunEvent → Connection
holding es = record { closed = false; written = es }

abbrev pub over : List RunEvent → Connection
over es = record { closed = true; written = es }

send_all-holding : (es sent : List RunEvent) → send_all es (holding sent) ≡ holding (sent ++ es)
unfolding send_all
send_all-holding [] sent = ap holding (sym (append-nil sent))
send_all-holding (e ∷ es) sent =
    send_all-holding es (sent ++ e ∷ []) ∙ ap holding (append_assoc sent (e ∷ []) es)

-- Nothing reaches a connection that is over.
arrive-over : (xs : List Arrival) (es : List RunEvent) → arrive xs (over es) ≡ over es
unfolding arrive
arrive-over [] es = refl
arrive-over (hung_up ∷ xs) es = arrive-over xs es
arrive-over (live e ∷ xs) es = arrive-over xs es

refunded_of_count :
    (run : ℕ) (es : List LedgerRow) → refunds run es ≡ 1 → any (is_refund_of run) es ≡ true
refunded_of_count run [] h = absurd (omega arith)
refunded_of_count run (e ∷ es) h = ground (arith, refunded_of_count run es)

some_injected : {a b : RunRow} → some a ≡ some b → a ≡ b
some_injected e = cc

find-Charged :
    (run : ℕ) (rs : List RunRow) (es : List LedgerRow) (r : RunRow)
    → All (Charged es) rs
    → find (is_run run) rs ≡ some r
    → (r.id ≡ run) × Charged es r
find-Charged run [] es r h f = absurd cc
find-Charged run (q ∷ rs) es r h f = elim (Bool-cases (q.id == run)) [
  | inl hit ↦
      subst (λ x. (x.id ≡ run) × Charged es x) (some_injected (rw hit at f))
        ((==_iff q.id run).0 hit, h.0)
  | inr miss ↦ find-Charged run rs es r h.1 (rw miss at f)
]

module _ (user run : ℕ) (r : RunRow) (d : Db) (later : List Arrival) where
  -- The events of the persisted steps, between the first and the last.
  abbrev pub told : RunEvent → List RunEvent
  told e = run_started r.id r.thread_id r.model_id ∷ (steps_to_events r.steps ++ e ∷ [])

  first : RunEvent
  first = run_started r.id r.thread_id r.model_id

  nothing : Wait
  nothing = record { arrivals = []; db = d }

  arrive-nil : (c : Connection) → arrive [] c ≡ c
  unfolding arrive
  arrive-nil c = refl

  replayed-calm :
      find (is_run run) d.runs ≡ some r
      → replayed user run r (calm d later) ≡ holding (first ∷ steps_to_events r.steps)
  unfolding replayed begun send arrive first
  replayed-calm f = rw f (send_all-holding (steps_to_events r.steps) (first ∷ []))

  stream-calm :
      (e : RunEvent)
      → finish_stream user run
          (some r)
          (record { arrivals = []; db = d })
          (holding (first ∷ steps_to_events r.steps))
        ≡ over (told e)
      → find (is_run run) d.runs ≡ some r
      → stream_run user run r (calm d later) ≡ over (told e)
  unfolding stream_run nothing
  stream-calm e h f =
      ap
        (λ (c : Connection).
          arrive later (finish_stream user run (find (is_run run) d.runs) nothing c))
        (arrive-nil (replayed user run r (calm d later)) ∙ replayed-calm f)
      ∙ ap
          (λ (o : Option RunRow).
            arrive later
              (finish_stream user run o nothing (holding (first ∷ steps_to_events r.steps))))
          f
      ∙ ap (arrive later) h
      ∙ arrive-over later (told e)

  events-calm :
      (e : RunEvent)
      → stream_run user run r (calm d later) ≡ over (told e)
      → find (is_run run) d.runs ≡ some r
      → r.user_id ≡ user
      → events user run d (calm d later) ≡ ok (over (told e))
  unfolding events
  events-calm e h f mine = rw f (rw ((==_iff r.user_id user).1 mine) (ap ok h))

  finish-failed :
      r.status ≡ RunStatus.failed
      → finish_stream user run
          (some r)
          (record { arrivals = []; db = d })
          (holding (first ∷ steps_to_events r.steps))
        ≡ over (told (failed_event user run r.error d))
  unfolding finish_stream arrive send cleanup first
  finish-failed s = rw s refl

  finish-done :
      r.status ≡ RunStatus.done
      → finish_stream user run
          (some r)
          (record { arrivals = []; db = d })
          (holding (first ∷ steps_to_events r.steps))
        ≡ over (told (completed_event user run d))
  unfolding finish_stream arrive send cleanup first
  finish-done s = rw s refl

  -- The row of a failed run has one refund, which the last query finds.
  refunded_failed :
      IsSound d
      → find (is_run run) d.runs ≡ some r
      → r.status ≡ RunStatus.failed
      → refunded run d ≡ true
  unfolding refunded
  refunded_failed v f s = refunded_of_count run d.credit_ledger (rw (← c.0) (c.1.1 ∙ ap due s))
    where
      c : (r.id ≡ run) × Charged d.credit_ledger r
      c = find-Charged run d.runs d.credit_ledger r v.charged.charged f

  -- The terminal event of a run that is over; a running one has none.
  abbrev pub last_event : RunStatus → Option RunEvent
  last_event RunStatus.failed = some (run_failed run (get_or r.error (codes "failed")) true)
  last_event RunStatus.done =
      some (run_completed run (run_cost run d) (credits_of (user_credits user d)))
  last_event RunStatus.running = none

  same_event : {a b : RunEvent} → some a ≡ some b → a ≡ b
  same_event e = cc

  reload_by :
      (status : RunStatus) (e : RunEvent)
      → r.status ≡ status
      → last_event status ≡ some e
      → IsSound d
      → find (is_run run) d.runs ≡ some r
      → r.user_id ≡ user
      → events user run d (calm d later) ≡ ok (over (told e))
  unfolding failed_event completed_event nothing
  reload_by RunStatus.running e s l v f mine = cc
  reload_by RunStatus.done e s l v f mine =
      events-calm _ (stream-calm _ (finish-done s) f) f mine
      ∙ ap (λ x. ok (over (told x))) (same_event l)
  reload_by RunStatus.failed e s l v f mine =
      events-calm _ (stream-calm _ (finish-failed s) f) f mine
      ∙ ap (λ b. ok (over (told (run_failed run (get_or r.error (codes "failed")) b))))
          (refunded_failed v f s)
      ∙ ap (λ x. ok (over (told x))) (same_event l)

  -- Where the database has the invariant, a browser that opens a run of its user that is over is
  -- sent the start, the events of the steps in their order, and one terminal event: for a failed
  -- run its error and a credit that has been refunded, for one that is done the sum of its recorded
  -- costs and the credits. Then the connection is over, whatever comes later. Nothing else arrives
  -- while it is served.
  pub events_reload :
      (e : RunEvent)
      → IsSound d
      → find (is_run run) d.runs ≡ some r
      → r.user_id ≡ user
      → last_event r.status ≡ some e
      → events user run d (calm d later) ≡ ok (over (told e))
  events_reload e v f mine l = reload_by r.status e refl l v f mine
