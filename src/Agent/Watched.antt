-- ===== src/Agent/Watched.antt =====
-- The worker of src/agent/agent.processor.ts and the stream of src/agent/sse.controller.ts: what a
-- browser is sent of a job.
use micro_manus_services.Base.{
  ℕ, ◌≡◌, refl, ap, ◌∙◌, ◌⊎◌, inl, inr, Bool, true, false, ◌&&◌, ◌||◌, some, List, [], ◌∷◌, ◌++◌,
  arith, ◌==◌, if◌then◌else◌, Bool-cases, Text, find, any,
}
use mathlib.Core.Path.{subst}
use micro_manus_services.Db.{Db, Result, ok, RunRow, tx, is_running}
use micro_manus_services.Db.Statements.{is_run}
use micro_manus_services.Models.{get_model}
use micro_manus_services.RunEvents.{RunEvent, run_completed}
use micro_manus_services.Agent.Loop.{Services, Ended, cancelled_by_user, finished}
use micro_manus_services.Agent.Finalize.{fail_tx, complete_tx}
use micro_manus_services.Agent.Process.{
  Job, Blocks, process, finish, finalize_failed, with_model, credits_now, queue_summary,
}
use micro_manus_services.Agent.Leaves.{Leaves, bind-Leaves, with_model-Leaves}
use micro_manus_services.Agent.Settles.{find_run-id}
use micro_manus_services.Agent.Sse.{Arrival, live, Connection, Course, is_terminal, events}
use micro_manus_services.Agent.Sse.Open.{Stays, ends, is_over}
use micro_manus_services.Agent.Sse.Ends.{HasEnded, events_end}
use micro_manus_services.Base.Int.{ℤ}
use micro_manus_services.World.{World, Action, pure, modify, ◌>>◌, publish, on_db, gets, ◌>>=◌}

abbrev is_last : ℕ → ℕ × RunEvent → Bool
is_last run (r, e) = r == run && is_terminal e

-- The newest event that has been published is a terminal one of the run.
abbrev announced : ℕ → List (ℕ × RunEvent) → Bool
announced run [] = false
announced run (p ∷ ps) = is_last run p

abbrev Announces : ℕ → {A : Type 0} → A → Action A → Type 0
Announces run a m = Leaves (λ w. announced run w.published ≡ true) a m

own : (n : ℕ) (b : Bool) → b ≡ true → (n == n && b) ≡ true
own n b h = ground arith

fail-Announces : (r : RunRow) (message : Text) → Announces r.id tt (finalize_failed r message)
unfolding finalize_failed
fail-Announces r message =
    bind-Leaves (λ w. announced r.id w.published ≡ true) tt _ (on_db (tx (fail_tx r message)))
      λ _. record { leaves = λ w e. own r.id true refl }

-- What the channel of a run carries, oldest first.
abbrev heard : ℕ → ℕ × RunEvent → List Arrival
heard run (r, e) = if r == run then live e ∷ [] else []

unfoldable pub channel : ℕ → List (ℕ × RunEvent) → List Arrival
channel run [] = []
channel run (p ∷ ps) = channel run ps ++ heard run p

any-append : (p : Arrival → Bool) (xs ys : List Arrival) → any p (xs ++ ys) ≡ (any p xs || any p ys)
any-append p [] ys = refl
any-append p (x ∷ xs) ys = ground (arith, any-append p xs ys)

heard-ends : (run : ℕ) (p : ℕ × RunEvent) → is_last run p ≡ true → any ends (heard run p) ≡ true
heard-ends run (r, e) h = ground arith

channel-ends :
    (run : ℕ) (ps : List (ℕ × RunEvent))
    → announced run ps ≡ true
    → any ends (channel run ps) ≡ true
unfolding channel
channel-ends run [] h = absurd cc
channel-ends run (p ∷ ps) h =
    any-append ends (channel run ps) (heard run p) ∙ ground (arith, heard-ends run p h)

-- The events of a run are on its channel from the first one on, in the order in which they were
-- published, and the handler hears them in that order over its waits; or the status query already
-- reads a run that is over.
abbrev pub Hears : Course → World → ℕ → Type 0
Hears k w run =
    (is_over (find (is_run run) k.for_status.db.runs) ≡ true)
    ⊎ (k.for_steps.arrivals ++ (k.for_status.arrivals ++ k.later) ≡ channel run w.published)

some-wait :
    (a b c : List Arrival)
    → any ends (a ++ (b ++ c)) ≡ true
    → (any ends a ≡ true) ⊎ (any ends b ≡ true) ⊎ (any ends c ≡ true)
some-wait a b c h = elim (Bool-cases (any ends a)) [
  | inl x ↦ inl x
  | inr x ↦ elim (Bool-cases (any ends b)) [
    | inl y ↦ inr (inl y)
    | inr y ↦ inr (inr (ground (arith, any-append ends a (b ++ c), any-append ends b c)))
  ]
]

heard-HasEnded :
    (user run : ℕ) (k : Course) (w : World)
    → announced run w.published ≡ true
    → Hears k w run
    → HasEnded user run k
heard-HasEnded user run k w h (inl over) = inr (inr (inl over))
heard-HasEnded user run k w h (inr hears) = spread (
    some-wait k.for_steps.arrivals k.for_status.arrivals k.later
      (ap (any ends) hears ∙ channel-ends run w.published h))
  where
    spread :
        (any ends k.for_steps.arrivals ≡ true)
          ⊎ (any ends k.for_status.arrivals ≡ true)
          ⊎ (any ends k.later ≡ true)
        → HasEnded user run k
    spread (inl x) = inl x
    spread (inr (inl y)) = inr (inl y)
    spread (inr (inr z)) = inr (inr (inr z))

module _ (sv : Services) (bl : Blocks) (decrypt : Text → Result Text) (message : ℕ) where
  -- What follows the completing transaction.
  abbrev closing : RunRow → ℕ → ℤ → Action Bool
  closing r cost credits = do
    publish r.id (run_completed r.id cost credits)
    modify (queue_summary r)
    pure false

  finish-Announces :
      (r : RunRow) (e : Ended) → Announces r.id false (finish sv bl decrypt message r e)
  unfolding finish
  finish-Announces r cancelled_by_user = record { leaves = λ w e. absurd cc }
  finish-Announces r (finished text cost) =
      bind-Leaves (λ w. announced r.id w.published ≡ true) false
        (λ _. gets (credits_now sv bl decrypt message r.user_id) >>= closing r cost)
        (on_db (tx (complete_tx message r text)))
        λ _.
          bind-Leaves (λ w. announced r.id w.published ≡ true) false (closing r cost)
            (gets (credits_now sv bl decrypt message r.user_id))
            λ c. record { leaves = λ w e. own r.id true refl }

  process-announced :
      (j : Job) (w : World) (r : RunRow)
      → find (is_run j.run_id) w.db.runs ≡ some r
      → is_running r.status ≡ true
      → (process sv bl decrypt message j w).0 ≡ ok tt
      → announced j.run_id (process sv bl decrypt message j w).1.published ≡ true
  unfolding process
  process-announced j w r q alive = rw q (
      rw alive (λ e.
        subst
          (λ i.
            announced i (with_model sv bl decrypt message j r (get_model r.model_id) w).1.published
            ≡ true)
          (find_run-id sv bl decrypt message j.run_id w.db.runs r q)
          (with_model-Leaves sv bl decrypt message r (λ w. announced r.id w.published ≡ true)
            (fail-Announces r) (finish-Announces r) j (get_model r.model_id) w e)))

  -- Where a job carries out a running run and returns, a browser that has subscribed before the
  -- first event of the run, and stays, is sent a terminal event and is let go, however the events
  -- are spread over the waits of its handler.
  pub process-events :
      (j : Job) (w : World) (r : RunRow) (user : ℕ) (d : Db) (k : Course) (c : Connection)
      → find (is_run j.run_id) w.db.runs ≡ some r
      → is_running r.status ≡ true
      → (process sv bl decrypt message j w).0 ≡ ok tt
      → Stays k
      → Hears k (process sv bl decrypt message j w).1 j.run_id
      → events user j.run_id d k ≡ ok c
      → (c.closed ≡ true) × (any is_terminal c.written ≡ true)
  process-events j w r user d k c q alive e s hears sent =
      events_end user j.run_id d k c s
        (heard-HasEnded user j.run_id k (process sv bl decrypt message j w).1
          (process-announced j w r q alive e) hears)
        sent
