-- ===== src/Agent/Sse/Ends.antt =====
-- A stream of src/agent/sse.controller.ts ends where its run has ended, as long as the browser
-- stays.
use micro_manus_services.Base.{
  ℕ, ◌≡◌, refl, sym, ◌∙◌, ◌⊎◌, inl, inr, true, false, Option, none, some, List, [], arith, ◌==◌,
  Bool-cases, Text, find, any,
}
use mathlib.Core.Path.{subst}
use micro_manus_services.Keys.Accepted.{injected}
use micro_manus_services.Db.{Db, ok, RunRow, RunStatus, is_running}
use micro_manus_services.Db.Statements.{is_run}
use micro_manus_services.RunEvents.{RunStep, RunEvent, steps_to_events, run_started}
use micro_manus_services.Agent.Sse.{
  Connection, cleanup, is_terminal, arrive, Wait, Course, steps_of, completed_event, failed_event,
  end_by, finish_stream, begun, replayed, stream_run, events_of, events,
}
use micro_manus_services.Agent.Sse.Once.{replay-calm}
use micro_manus_services.Agent.Sse.Open.{
  hangs, ends, Stays, Sync, cleanup-Sync, send-Sync, arrive-Sync, send_all-Sync, arrive-closed,
  send_all-closed, arrive-ends, is_over, opened-Sync,
}

module _ (user run : ℕ) where
  completed-terminal : (d : Db) → is_terminal (completed_event user run d) ≡ true
  unfolding completed_event
  completed-terminal d = refl

  failed-terminal :
      (error : Option Text) (d : Db) → is_terminal (failed_event user run error d) ≡ true
  unfolding failed_event
  failed-terminal error d = refl

  persisted : Course → List RunStep
  persisted k = steps_of (find (is_run run) k.for_steps.db.runs)

  replay : Course → List RunEvent
  unfolding persisted
  replay k = steps_to_events (persisted k)

  end_by-Sync :
      (status : RunStatus) (error : Option Text) (last : Wait) (c : Connection)
      → any hangs last.arrivals ≡ false
      → Sync c
      → Sync (end_by user run status error last c)
  unfolding end_by
  end_by-Sync RunStatus.running error last c t h = h
  end_by-Sync RunStatus.done error last c t h =
      cleanup-Sync (completed_event user run last.db) (arrive last.arrivals c)
        (completed-terminal last.db) (arrive-Sync last.arrivals c t h)
  end_by-Sync RunStatus.failed error last c t h =
      cleanup-Sync (failed_event user run error last.db) (arrive last.arrivals c)
        (failed-terminal error last.db) (arrive-Sync last.arrivals c t h)

  finish-Sync :
      (fresh : Option RunRow) (last : Wait) (c : Connection)
      → any hangs last.arrivals ≡ false
      → Sync c
      → Sync (finish_stream user run fresh last c)
  unfolding finish_stream
  finish-Sync none last c t h = h
  finish-Sync (some r) last c t h = end_by-Sync r.status r.error last c t h

  stream-Sync : (r : RunRow) (k : Course) → Stays k → Sync (stream_run user run r k)
  unfolding stream_run replay replayed begun
  stream-Sync r k s = arrive-Sync k.later _ s.afterwards (
      finish-Sync _ k.for_last _ s.in_last (
        arrive-Sync k.for_status.arrivals _ s.in_status (
          send_all-Sync (replay k) _ (replay-calm (persisted k)) (
            arrive-Sync k.for_steps.arrivals _ s.in_steps (
              send-Sync (run_started r.id r.thread_id r.model_id)
                (record { closed = k.left_early; written = [] }) refl
                (opened-Sync k.left_early s.from_start))))))

  end_by-closed :
      (status : RunStatus) (error : Option Text) (last : Wait) (c : Connection)
      → (c.closed ≡ true) ⊎ (is_running status ≡ false)
      → (end_by user run status error last c).closed ≡ true
  unfolding end_by cleanup
  end_by-closed RunStatus.running error last c (inl h) = h
  end_by-closed RunStatus.running error last c (inr h) = cc
  end_by-closed RunStatus.done error last c h = refl
  end_by-closed RunStatus.failed error last c h = refl

  finish-closed :
      (fresh : Option RunRow) (last : Wait) (c : Connection)
      → (c.closed ≡ true) ⊎ (is_over fresh ≡ true)
      → (finish_stream user run fresh last c).closed ≡ true
  unfolding finish_stream
  finish-closed none last c (inl h) = h
  finish-closed none last c (inr h) = cc
  finish-closed (some r) last c (inl h) = end_by-closed r.status r.error last c (inl h)
  finish-closed (some r) last c (inr h) = end_by-closed r.status r.error last c (inr (ground arith))

  -- Where the end of the run is to be seen, from the subscription on.
  abbrev pub HasEnded : Course → Type 0
  HasEnded k =
      (any ends k.for_steps.arrivals ≡ true)
      ⊎ (any ends k.for_status.arrivals ≡ true)
      ⊎ (is_over (find (is_run run) k.for_status.db.runs) ≡ true)
      ⊎ (any ends k.later ≡ true)

  before_last : RunRow → Course → Connection
  before_last r k = arrive k.for_status.arrivals (replayed user run r k)

  late :
      (r : RunRow) (k : Course)
      → ((before_last r k).closed ≡ true)
        ⊎ (is_over (find (is_run run) k.for_status.db.runs) ≡ true)
      → (stream_run user run r k).closed ≡ true
  unfolding stream_run before_last
  late r k h =
      arrive-closed k.later
        (finish_stream user run (find (is_run run) k.for_status.db.runs) k.for_last
          (before_last r k))
        (finish-closed (find (is_run run) k.for_status.db.runs) k.for_last (before_last r k) h)

  stream-closed : (r : RunRow) (k : Course) → HasEnded k → (stream_run user run r k).closed ≡ true
  unfolding stream_run replayed before_last
  stream-closed r k (inl h) = late r k (
      inl (
        arrive-closed k.for_status.arrivals (replayed user run r k) (
          send_all-closed (steps_to_events (steps_of (find (is_run run) k.for_steps.db.runs)))
            (arrive k.for_steps.arrivals (begun user run r k))
          ∙ arrive-ends k.for_steps.arrivals (begun user run r k) h)))
  stream-closed r k (inr (inl h)) =
      late r k (inl (arrive-ends k.for_status.arrivals (replayed user run r k) h))
  stream-closed r k (inr (inr (inl h))) = late r k (inr h)
  stream-closed r k (inr (inr (inr h))) =
      arrive-ends k.later
        (finish_stream user run (find (is_run run) k.for_status.db.runs) k.for_last
          (before_last r k))
        h

  abbrev Ended : Connection → Type 0
  Ended c = (c.closed ≡ true) × (any is_terminal c.written ≡ true)

  stream-Ended : (r : RunRow) (k : Course) → Stays k → HasEnded k → Ended (stream_run user run r k)
  unfolding Sync
  stream-Ended r k s h = (stream-closed r k h, sym (stream-Sync r k s) ∙ stream-closed r k h)

  events_of-Ended :
      (found : Option RunRow) (k : Course) (c : Connection)
      → Stays k
      → HasEnded k
      → events_of user run found k ≡ ok c
      → Ended c
  unfolding events_of
  events_of-Ended none k c s h e = cc
  events_of-Ended (some r) k c s h e = elim (Bool-cases (r.user_id == user)) [
    | inl mine ↦ subst Ended (injected (rw mine at e)) (stream-Ended r k s h)
    | inr other ↦ absurd (ground (arith, rw other at e))
  ]

  -- Where the end of a run is to be seen from the subscription on (the status query reads a run
  -- that is over, or a terminal event comes on the channel before or after it), a browser that
  -- stays is sent a terminal event, and the connection is closed.
  pub events_end :
      (d : Db) (k : Course) (c : Connection)
      → Stays k
      → HasEnded k
      → events user run d k ≡ ok c
      → (c.closed ≡ true) × (any is_terminal c.written ≡ true)
  unfolding events
  events_end d k c s h e = events_of-Ended (find (is_run run) d.runs) k c s h e
