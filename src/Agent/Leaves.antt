-- ===== src/Agent/Leaves.antt =====
-- What a job of src/agent/agent.processor.ts leaves behind where it returns, for any property that
-- the failing and the finishing of a run bring about.
use micro_manus_services.Base.{
  ℕ, ◌≡◌, refl, inl, inr, Bool, true, false, Option, none, some, ◌++◌, arith, Bool-cases, Text,
  codes,
}
use micro_manus_services.Db.{Result, ok, err, RunRow}
use micro_manus_services.Llm.Service.{resolve_key}
use micro_manus_services.Models.{ModelEntry}
use micro_manus_services.RunEvents.{run_started}
use micro_manus_services.Agent.Loop.{Services, Ended, turns}
use micro_manus_services.Agent.Process.{
  turns_left, resumed_turns, Job, Blocks, attempt, finish, finalize_failed, with_model,
  after_attempt, retries, context,
}
use micro_manus_services.Billing.{message_of}
use micro_manus_services.World.{World, Action, publish, on_db, gets, ◌>>=◌, then_act}

-- An action that returns `a` leaves a world with the property.
pub record Leaves (P : World → Type 0) {A : Type 0} (a : A) (m : Action A) : Type 0 where
  pub leaves : (w : World) → (m w).0 ≡ ok a → P (m w).1

module _ (P : World → Type 0) {A B : Type 0} (b : B) (f : A → Action B) where
  after-Leaves :
      (x : Result A × World)
      → ((a : A) → Leaves P b (f a))
      → (then_act f x).0 ≡ ok b
      → P (then_act f x).1
  after-Leaves (ok a, w) h e = (h a).leaves w e
  after-Leaves (err x, w) h e = absurd cc

  -- It is enough that what follows does.
  pub bind-Leaves : (m : Action A) → ((a : A) → Leaves P b (f a)) → Leaves P b (m >>= f)
  bind-Leaves m h = record { leaves = λ w e. after-Leaves (m w) h e }

module _ (sv : Services) (bl : Blocks) (decrypt : Text → Result Text) (message : ℕ) (r : RunRow)
    (P : World → Type 0) (failing : (text : Text) → Leaves P tt (finalize_failed r text))
    (finishing : (e : Ended) → Leaves P false (finish sv bl decrypt message r e)) where
  attempt-Leaves : (m : ModelEntry) → Leaves P false (attempt sv bl decrypt message r m)
  unfolding attempt
  attempt-Leaves m = bind-Leaves P false _ (on_db (resolve_key decrypt r.user_id m)) λ key.
      bind-Leaves P false _ (gets (λ w. context sv bl decrypt message r w.db)) λ msgs.
        bind-Leaves P false _ (publish r.id (run_started r.id r.thread_id r.model_id)) λ _.
          bind-Leaves P false _ (turns sv r key m (turns_left r) (resumed_turns msgs r))
            λ ended. finishing ended

  after_attempt-Leaves :
      (j : Job) (x : Result Bool × World)
      → (x.0 ≡ ok false → P x.1)
      → (after_attempt sv bl decrypt message j r x).0 ≡ ok tt
      → P (after_attempt sv bl decrypt message j r x).1
  after_attempt-Leaves j (ok true, w) h e = (failing (codes "Cancelled by user")).leaves w e
  after_attempt-Leaves j (ok false, w) h e = h refl
  after_attempt-Leaves j (err x, w) h e = elim (Bool-cases (retries j x)) [
    | inl again ↦ absurd (ground (arith, again))
    | inr last ↦ rw last ((failing (message_of x)).leaves w (rw last at e))
  ]

  pub with_model-Leaves :
      (j : Job) (m : Option ModelEntry) (w : World)
      → (with_model sv bl decrypt message j r m w).0 ≡ ok tt
      → P (with_model sv bl decrypt message j r m w).1
  with_model-Leaves j none w = (failing (codes "Unknown model " ++ r.model_id)).leaves w
  with_model-Leaves j (some m) w =
      after_attempt-Leaves j (attempt sv bl decrypt message r m w) ((attempt-Leaves m).leaves w)
