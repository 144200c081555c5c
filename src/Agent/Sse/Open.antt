-- ===== src/Agent/Sse/Open.antt =====
-- When a connection of src/agent/sse.controller.ts is closed, and what has been sent by then.
use micro_manus_services.Base.{
  ◌≡◌, refl, sym, ◌∙◌, ◌⊎◌, inl, inr, Bool, true, false, not, Option, none, some, List, [], ◌∷◌,
  arith, if◌then◌else◌, Bool-cases, any,
}
use mathlib.Core.Path.{subst}
use micro_manus_services.Db.{RunRow, is_running}
use micro_manus_services.RunEvents.{RunEvent}
use micro_manus_services.Agent.Sse.{
  Arrival, live, hung_up, Connection, send, cleanup, is_terminal, on_arrival, arrive, send_all,
  Course,
}
use micro_manus_services.Agent.Sse.Once.{any-snoc}

abbrev pub hangs : Arrival → Bool
hangs hung_up = true
hangs (live e) = false

-- A terminal event on the run's channel.
abbrev pub ends : Arrival → Bool
ends hung_up = false
ends (live e) = is_terminal e

-- The browser keeps the connection.
pub record Stays (k : Course) : Type 0 where
  pub from_start : k.left_early ≡ false
  pub in_steps : any hangs k.for_steps.arrivals ≡ false
  pub in_status : any hangs k.for_status.arrivals ≡ false
  pub in_last : any hangs k.for_last.arrivals ≡ false
  pub afterwards : any hangs k.later ≡ false

-- Then it is closed exactly if a terminal event has been sent.
unfoldable pub Sync : Connection → Type 0
Sync c = c.closed ≡ any is_terminal c.written

pub cleanup-Sync :
    (e : RunEvent) (c : Connection) → is_terminal e ≡ true → Sync c → Sync (cleanup (send e c))
unfolding Sync cleanup send
cleanup-Sync e c t h = elim (Bool-cases c.closed) [
  | inl over ↦ rw over (sym (sym h ∙ over))
  | inr open_yet ↦ rw open_yet (sym (any-snoc c.written e ∙ ground arith))
]

pub send-Sync : (e : RunEvent) (c : Connection) → is_terminal e ≡ false → Sync c → Sync (send e c)
unfolding Sync send
send-Sync e c t h = elim (Bool-cases c.closed) [
  | inl over ↦ rw over (sym (sym h ∙ over))
  | inr open_yet ↦ rw open_yet (sym (any-snoc c.written e ∙ ground arith))
]

live-Sync :
    (e : RunEvent) (c : Connection) (b : Bool)
    → is_terminal e ≡ b
    → Sync c
    → Sync (if b then cleanup (send e c) else send e c)
live-Sync e c true t h = cleanup-Sync e c t h
live-Sync e c false t h = send-Sync e c t h

on_arrival-Sync : (a : Arrival) (c : Connection) → hangs a ≡ false → Sync c → Sync (on_arrival a c)
unfolding on_arrival
on_arrival-Sync hung_up c t h = cc
on_arrival-Sync (live e) c t h = closed_or (Bool-cases c.closed)
  where
    closed_or : (c.closed ≡ true) ⊎ (c.closed ≡ false) → Sync (on_arrival (live e) c)
    closed_or (inl over) = subst Sync (sym (same over)) h
      where
        same : c.closed ≡ true → on_arrival (live e) c ≡ c
        same o = ground arith
    closed_or (inr open_yet) =
        subst Sync (sym (same open_yet)) (live-Sync e c (is_terminal e) refl h)
      where
        same :
            c.closed ≡ false
            → on_arrival (live e) c ≡ (if is_terminal e then cleanup (send e c) else send e c)
        same o = ground arith

pub arrive-Sync :
    (xs : List Arrival) (c : Connection) → any hangs xs ≡ false → Sync c → Sync (arrive xs c)
unfolding arrive
arrive-Sync [] c t h = h
arrive-Sync (a ∷ xs) c t h =
    arrive-Sync xs (on_arrival a c) (ground arith) (on_arrival-Sync a c (ground arith) h)

pub send_all-Sync :
    (es : List RunEvent) (c : Connection)
    → any is_terminal es ≡ false
    → Sync c
    → Sync (send_all es c)
unfolding send_all
send_all-Sync [] c t h = h
send_all-Sync (e ∷ es) c t h =
    send_all-Sync es (send e c) (ground arith) (send-Sync e c (ground arith) h)

-- What is closed stays closed.
on_arrival-closed :
    (a : Arrival) (c : Connection) → c.closed ≡ true → (on_arrival a c).closed ≡ true
unfolding on_arrival cleanup
on_arrival-closed hung_up c h = refl
on_arrival-closed (live e) c h = rw h refl

pub arrive-closed :
    (xs : List Arrival) (c : Connection) → c.closed ≡ true → (arrive xs c).closed ≡ true
unfolding arrive
arrive-closed [] c h = h
arrive-closed (a ∷ xs) c h = arrive-closed xs (on_arrival a c) (on_arrival-closed a c h)

send-closed : (e : RunEvent) (c : Connection) → (send e c).closed ≡ c.closed
unfolding send
send-closed e c = ground arith

pub send_all-closed : (es : List RunEvent) (c : Connection) → (send_all es c).closed ≡ c.closed
unfolding send_all
send_all-closed [] c = refl
send_all-closed (e ∷ es) c = send_all-closed es (send e c) ∙ send-closed e c

on_arrival-ends : (a : Arrival) (c : Connection) → ends a ≡ true → (on_arrival a c).closed ≡ true
unfolding on_arrival cleanup
on_arrival-ends hung_up c h = refl
on_arrival-ends (live e) c h = ground arith

pub arrive-ends :
    (xs : List Arrival) (c : Connection) → any ends xs ≡ true → (arrive xs c).closed ≡ true
unfolding arrive
arrive-ends [] c h = cc
arrive-ends (a ∷ xs) c h = elim (Bool-cases (ends a)) [
  | inl last ↦ arrive-closed xs (on_arrival a c) (on_arrival-ends a c last)
  | inr more ↦ arrive-ends xs (on_arrival a c) (rw more at h)
]

-- The row that the last status query reads is of a run that is over.
abbrev pub is_over : Option RunRow → Bool
is_over none = false
is_over (some r) = not (is_running r.status)

pub opened-Sync : (b : Bool) → b ≡ false → Sync (record { closed = b; written = [] })
unfolding Sync
opened-Sync b h = h
