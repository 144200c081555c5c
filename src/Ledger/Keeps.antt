-- ===== src/Ledger/Keeps.antt =====
-- Rules by which a handler keeps the invariant of the database, for `search`.
use micro_manus_services.Base.{◌≡◌, ℕ}
use micro_manus_services.Db.{Db, Query, Result, ok, err}
use micro_manus_services.Ledger.Sound.{IsSound}
use micro_manus_services.RunEvents.{RunEvent}
use micro_manus_services.World.{World, Action, pure, publish, on_db, gets, modify, ◌>>=◌, then_act}

-- The invariant of the database, for what a handler leaves.
pub record Keeps {A : Type 0} (m : Action A) : Type 0 where
  pub keeps : (w : World) → IsSound w.db → IsSound (m w).1.db

module _ {A B : Type 0} where
  after-Keeps :
      (f : A → Action B) (x : Result A × World)
      → ((a : A) → Keeps (f a))
      → IsSound x.1.db
      → IsSound (then_act f x).1.db
  after-Keeps f (ok a, w) h v = (h a).keeps w v
  after-Keeps f (err e, w) h v = v

  -- A sequence keeps the invariant if its parts do.
  pub bind-Keeps :
      {m : Action A} {f : A → Action B} → Keeps m → ((a : A) → Keeps (f a)) → Keeps (m >>= f)
  bind-Keeps {m} {f} hm hf = record { keeps = λ w v. after-Keeps f (m w) hf (hm.keeps w v) }

module _ {A : Type 0} where
  pub result-Keeps : (x : Result A) → Keeps (λ w. (x, w))
  result-Keeps x = record { keeps = λ w v. v }

  pub pure-Keeps : (a : A) → Keeps (pure a)
  pure-Keeps a = record { keeps = λ w v. v }

  pub gets-Keeps : (f : World → A) → Keeps (gets f)
  gets-Keeps f = record { keeps = λ w v. v }

  pub on_db-Keeps : (q : Query A) → ((d : Db) → IsSound d → IsSound (q d).1) → Keeps (on_db q)
  on_db-Keeps q h = record { keeps = λ w v. h w.db v }

pub publish-Keeps : (run : ℕ) (e : RunEvent) → Keeps (publish run e)
publish-Keeps run e = record { keeps = λ w v. v }

-- A change that leaves the database alone.
pub modify-Keeps : (f : World → World) → ((w : World) → (f w).db ≡ w.db) → Keeps (modify f)
modify-Keeps f h = record { keeps = λ w v. rw (h w) v }

pub ruleset keeps_rules = (bind-Keeps, publish-Keeps, gets-Keeps, result-Keeps, pure-Keeps)
