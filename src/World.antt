-- ===== src/World.antt =====
-- What the request handlers and the workers act on: the database, the cancel flags and channels of
-- Redis (src/redis), and the BullMQ queues. A handler returns a value or throws, and what it did
-- before an exception stays done, save in a transaction.
use micro_manus_services.Base.{ℕ, ⊤, Bool, List, ◌∷◌, Text, if◌then◌else◌}
use micro_manus_services.Db.{Db, Query, Result, ok, err, Error}
use micro_manus_services.RunEvents.{RunEvent}

pub record SummarizeJob : Type 0 where
  pub thread_id : ℕ
  pub user_id : ℕ
  pub model_id : Text

-- `cancelled` holds the runs whose `cancel:run:` key is set (its expiry after an hour is left out);
-- the lists have the newest first.
pub record World : Type 0 where
  pub db : Db
  pub cancelled : List ℕ
  pub published : List (ℕ × RunEvent)
  pub run_jobs : List ℕ
  pub summarize_jobs : List SummarizeJob

abbrev pub Action : Type 0 → Type 0
Action A = World → Result A × World

module _ {A : Type 0} where
  abbrev pub pure : A → Action A
  pure a w = (ok a, w)

  abbrev pub throw : Error → Action A
  throw e w = (err e, w)

  abbrev pub gets : (World → A) → Action A
  gets f w = (ok (f w), w)

  abbrev pub with_db : World → Result A × Db → Result A × World
  with_db w (r, d) = (r, record w { db = d })

  abbrev pub on_db : Query A → Action A
  on_db q w = with_db w (q w.db)

abbrev pub then_act : {A B : Type 0} → (A → Action B) → Result A × World → Result B × World
then_act f (ok a, w) = f a w
then_act f (err e, w) = (err e, w)

infixl 5 ◌>>=◌ ◌>>◌
abbrev pub ◌>>=◌ : {A B : Type 0} → Action A → (A → Action B) → Action B
◌>>=◌ m f w = then_act f (m w)

abbrev pub ◌>>◌ : {A B : Type 0} → Action A → Action B → Action B
m >> k = m >>= λ _. k

abbrev pub throw_if : Bool → Error → Action ⊤
throw_if b e w = (if b then err e else ok tt, w)

abbrev pub modify : (World → World) → Action ⊤
modify f w = (ok tt, f w)

-- What other requests and workers do while this one waits.
abbrev pub await : (World → World) → Action ⊤
await others w = (ok tt, others w)

-- `redis.client.publish(runChannel(run), …)`
abbrev pub publish : ℕ → RunEvent → Action ⊤
publish run e w = (ok tt, record w { published = (run, e) ∷ w.published })
