-- ===== src/Agent/Sse/Once.antt =====
-- A stream of src/agent/sse.controller.ts ends once: nothing follows a terminal event.
use micro_manus_services.Base.{
  ℕ, ◌≡◌, refl, sym, ◌∙◌, inl, inr, Bool, true, false, ◌||◌, Option, none, some, List, [], ◌∷◌,
  ◌++◌, arith, ◌==◌, if◌then◌else◌, Bool-cases, Text, find, any,
}
use mathlib.Core.Path.{subst, sym}
use micro_manus_services.Keys.Accepted.{injected}
use micro_manus_services.Db.{Db, ok, RunRow, RunStatus}
use micro_manus_services.Db.Statements.{is_run}
use micro_manus_services.RunEvents.{
  RunStep, RunEvent, llm, tool, steps_to_events, sort_steps, step_events, events_from,
}
use micro_manus_services.Agent.Sse.{
  Arrival, live, hung_up, Connection, send, cleanup, is_terminal, on_arrival, arrive, send_all,
  Wait, Course, steps_of, completed_event, failed_event, end_by, finish_stream, begun, replayed,
  stream_run, events_of, events, run_started,
}

-- Nothing stands behind a terminal event.
abbrev pub LastOnly : List RunEvent → Type 0
LastOnly [] = Unit
LastOnly (e ∷ es) = (is_terminal e ≡ true → es ≡ []) × LastOnly es

snoc-LastOnly :
    (es : List RunEvent) (e : RunEvent) → any is_terminal es ≡ false → LastOnly (es ++ e ∷ [])
snoc-LastOnly [] e h = (λ q. refl, tt)
snoc-LastOnly (x ∷ es) e h = (λ q. absurd (ground arith), snoc-LastOnly es e (ground arith))

pub any-snoc :
    (es : List RunEvent) (e : RunEvent)
    → any is_terminal (es ++ e ∷ []) ≡ (any is_terminal es || is_terminal e)
any-snoc [] e = ground arith
any-snoc (x ∷ es) e = ground (arith, any-snoc es e)

-- An open connection has had no terminal event.
record Quiet (c : Connection) : Type 0 where
  last_only : LastOnly c.written
  none_yet : c.closed ≡ false → any is_terminal c.written ≡ false

cleanup-Quiet : (c : Connection) → LastOnly c.written → Quiet (cleanup c)
unfolding cleanup
cleanup-Quiet c h = record { last_only = h; none_yet = λ q. cc }

send-LastOnly : (e : RunEvent) (c : Connection) → Quiet c → LastOnly (send e c).written
unfolding send
send-LastOnly e c q = elim (Bool-cases c.closed) [
  | inl over ↦ rw over q.last_only
  | inr open_yet ↦ rw open_yet (snoc-LastOnly c.written e (q.none_yet open_yet))
]

send-Quiet : (e : RunEvent) (c : Connection) → is_terminal e ≡ false → Quiet c → Quiet (send e c)
unfolding send
send-Quiet e c h q = elim (Bool-cases c.closed) [
  | inl over ↦ rw over (record { last_only = q.last_only; none_yet = λ z. cc })
  | inr open_yet ↦ rw open_yet (record {
    last_only = snoc-LastOnly c.written e (q.none_yet open_yet);
    none_yet = λ _. rw (any-snoc c.written e) (rw (q.none_yet open_yet) h);
  })
]

on_live-open :
    (e : RunEvent) (c : Connection)
    → c.closed ≡ false
    → on_arrival (live e) c ≡ (if is_terminal e then cleanup (send e c) else send e c)
unfolding on_arrival
on_live-open e c h = rw h refl

on_arrival-Quiet : (a : Arrival) (c : Connection) → Quiet c → Quiet (on_arrival a c)
unfolding on_arrival
on_arrival-Quiet hung_up c q = cleanup-Quiet c q.last_only
on_arrival-Quiet (live e) c q = elim (Bool-cases c.closed) [
  | inl over ↦ rw over (record { last_only = q.last_only; none_yet = λ z. cc })
  | inr open_yet ↦ subst Quiet (sym (on_live-open e c open_yet)) (live-Quiet (is_terminal e) refl)
]
  where
    live-Quiet : (b : Bool) → is_terminal e ≡ b → Quiet (if b then cleanup (send e c) else send e c)
    live-Quiet true h = cleanup-Quiet (send e c) (send-LastOnly e c q)
    live-Quiet false h = send-Quiet e c h q

arrive-Quiet : (arrivals : List Arrival) (c : Connection) → Quiet c → Quiet (arrive arrivals c)
unfolding arrive
arrive-Quiet [] c q = q
arrive-Quiet (a ∷ arrivals) c q = arrive-Quiet arrivals (on_arrival a c) (on_arrival-Quiet a c q)

send_all-Quiet :
    (es : List RunEvent) (c : Connection)
    → any is_terminal es ≡ false
    → Quiet c
    → Quiet (send_all es c)
unfolding send_all
send_all-Quiet [] c h q = q
send_all-Quiet (e ∷ es) c h q =
    send_all-Quiet es (send e c) (ground arith) (send-Quiet e c (ground arith) q)

any-append :
    (xs ys : List RunEvent)
    → any is_terminal (xs ++ ys) ≡ (any is_terminal xs || any is_terminal ys)
any-append [] ys = refl
any-append (x ∷ xs) ys = ground (arith, any-append xs ys)

step_events-calm : (s : RunStep) → any is_terminal (step_events s) ≡ false
unfolding step_events
step_events-calm (llm s) = ground arith
step_events-calm (tool s) = ground arith

events_from-calm : (ss : List RunStep) → any is_terminal (events_from ss) ≡ false
unfolding events_from
events_from-calm [] = refl
events_from-calm (s ∷ ss) =
    any-append (step_events s) (events_from ss) ∙ rw (step_events-calm s) (events_from-calm ss)

-- A replay holds no terminal event.
pub replay-calm : (ss : List RunStep) → any is_terminal (steps_to_events ss) ≡ false
unfolding steps_to_events
replay-calm ss = events_from-calm (sort_steps ss)

module _ (user run : ℕ) where
  end_by-Quiet :
      (status : RunStatus) (error : Option Text) (last : Wait) (c : Connection)
      → Quiet c
      → Quiet (end_by user run status error last c)
  unfolding end_by
  end_by-Quiet RunStatus.running error last c q = q
  end_by-Quiet RunStatus.done error last c q =
      cleanup-Quiet (send (completed_event user run last.db) (arrive last.arrivals c)) (
        send-LastOnly (completed_event user run last.db) (arrive last.arrivals c)
          (arrive-Quiet last.arrivals c q))
  end_by-Quiet RunStatus.failed error last c q =
      cleanup-Quiet (send (failed_event user run error last.db) (arrive last.arrivals c)) (
        send-LastOnly (failed_event user run error last.db) (arrive last.arrivals c)
          (arrive-Quiet last.arrivals c q))

  finish-Quiet :
      (fresh : Option RunRow) (last : Wait) (c : Connection)
      → Quiet c
      → Quiet (finish_stream user run fresh last c)
  unfolding finish_stream
  finish-Quiet none last c q = q
  finish-Quiet (some r) last c q = end_by-Quiet r.status r.error last c q

  stream-Quiet : (r : RunRow) (k : Course) → Quiet (stream_run user run r k)
  unfolding stream_run replayed begun
  stream-Quiet r k = arrive-Quiet k.later _ (
      finish-Quiet _ k.for_last _ (
        arrive-Quiet k.for_status.arrivals _ (
          send_all-Quiet (steps_to_events (steps_of (find (is_run run) k.for_steps.db.runs))) _
            (replay-calm (steps_of (find (is_run run) k.for_steps.db.runs)))
            (arrive-Quiet k.for_steps.arrivals _ (
              send-Quiet (run_started r.id r.thread_id r.model_id)
                (record { closed = k.left_early; written = [] }) refl
                (record { last_only = tt; none_yet = λ _. refl }))))))

  events_of-LastOnly :
      (found : Option RunRow) (k : Course) (c : Connection)
      → events_of user run found k ≡ ok c
      → LastOnly c.written
  unfolding events_of
  events_of-LastOnly none k c e = cc
  events_of-LastOnly (some r) k c e = elim (Bool-cases (r.user_id == user)) [
    | inl mine ↦
        subst (λ (x : Connection). LastOnly x.written) (injected (rw mine at e))
          (stream-Quiet r k).last_only
    | inr other ↦ absurd (ground (arith, rw other at e))
  ]

  -- Whatever arrives while a browser is served, and when, nothing follows the first event that ends
  -- the run.
  pub events-LastOnly :
      (d : Db) (k : Course) (c : Connection) → events user run d k ≡ ok c → LastOnly c.written
  unfolding events
  events-LastOnly d k c e = events_of-LastOnly (find (is_run run) d.runs) k c e
