-- ===== src/Pool.antt =====
-- src/db/database.service.ts, one level below Db/Sql: a transaction as the commands that a pooled
-- client sends, each of which can fail. Other transactions are taken not to commit in between.
pub mod Atomic
use micro_manus_services.Base.{
  ℕ, zero, suc, ◌+◌, ◌-◌, ◌*◌, ◌/◌, ◌%◌, ◌≤◌, ◌<◌, max, String, ⊤, ◌≡◌, refl, sym, ap, ◌∙◌, ◌≢◌,
  ◌⊎◌, inl, inr, Bool, true, false, not, ◌&&◌, ◌||◌, Option, none, some, List, [], ◌∷◌, ◌++◌, map,
  reverse, arith, ltb, leb, ◌==◌, if◌then◌else◌, ltb→lt, lt→ltb, leb→le, ==_iff, tests, Bool-cases,
  Option-cases, is_some, Text, codes, length, take, drop, head?, last?, keep, find, any, all,
  update_where, update_where-none, length-append, length-take-le, All, All-append, All-map, text_eq,
}
use micro_manus_services.Db.{Db, Query, Result, ok, err, Error, other}

-- What comes of connecting and of the commands `BEGIN`, `COMMIT` and `ROLLBACK`. Where the answer
-- to `COMMIT` is an error, it may have taken effect: `landed`.
pub record Link : Type 0 where
  pub connect : Result ⊤
  pub begin : Result ⊤
  pub commit : Result ⊤
  pub landed : Bool
  pub rollback : Result ⊤

-- The database, the copy that the client's open transaction works on, and the number of clients
-- that the pool has given out.
pub record Server : Type 0 where
  pub committed : Db
  pub working : Option Db
  pub clients : ℕ

abbrev pub Command : Type 0 → Type 0
Command A = Server → Result A × Server

abbrev pub then_command : {A B : Type 0} → (A → Command B) → Result A × Server → Result B × Server
then_command f (ok a, s) = f a s
then_command f (err e, s) = (err e, s)

-- In the transaction, and outside one, where a statement commits by itself.
abbrev pub ran_working : {A : Type 0} → Result A × Db → Command A
ran_working (r, d) s = (r, record s { working = some d })

abbrev pub ran_alone : {A : Type 0} → Result A × Db → Command A
ran_alone (r, d) s = (r, record s { committed = d })

abbrev pub run_in : {A : Type 0} → Query A → Option Db → Command A
run_in q none s = ran_alone (q s.committed) s
run_in q (some w) s = ran_working (q w) s

abbrev pub run : {A : Type 0} → Query A → Command A
run q s = run_in q s.working s

abbrev pub kept : Option Db → Server → Server
kept none s = s
kept (some w) s = record s { committed = w; working = none }

abbrev pub dropped : Server → Server
dropped s = record s { working = none }

module _ (link : Link) where
  abbrev pub begun : Result ⊤ → Command ⊤
  begun (ok a) s = (ok tt, record s { working = some s.committed })
  begun (err e) s = (err e, s)

  abbrev pub begin : Command ⊤
  begin = begun link.begin

  abbrev pub committed_by : Result ⊤ → Bool → Command ⊤
  committed_by (ok a) landed s = (ok tt, kept s.working s)
  committed_by (err e) true s = (err e, kept s.working s)
  committed_by (err e) false s = (err e, s)

  abbrev pub commit : Command ⊤
  commit = committed_by link.commit link.landed

  -- A client that cannot roll back is lost, and the server ends its transaction.
  abbrev pub rolled_back : {A : Type 0} → Result ⊤ → Error → Command A
  rolled_back (ok a) e s = (err e, dropped s)
  rolled_back (err x) e s = (err x, dropped s)

  -- `catch (e) { await client.query('ROLLBACK'); throw e; }`
  abbrev pub or_roll_back : {A : Type 0} → Result A × Server → Result A × Server
  or_roll_back (ok a, s) = (ok a, s)
  or_roll_back (err e, s) = rolled_back link.rollback e s

  -- `finally { client.release(); }`
  abbrev pub release : {A : Type 0} → Result A × Server → Result A × Server
  release (r, s) = (r, record s { clients = s.clients - 1 })

  abbrev pub committing : {A : Type 0} → A → Command A
  committing a s = then_command (λ _ t. (ok a, t)) (commit s)

  abbrev pub body : {A : Type 0} → Query A → Command A
  body q s = then_command (λ _ t. then_command committing (run q t)) (begin s)

  abbrev pub connected : {A : Type 0} → Result ⊤ → Query A → Command A
  connected (err e) q s = (err e, s)
  connected (ok a) q s = release (or_roll_back (body q (record s { clients = s.clients + 1 })))

  unfoldable pub client_tx : {A : Type 0} → Query A → Command A
  client_tx q s = connected link.connect q s

-- `query` and `one` of the service, which refuse once the pool is closed.
abbrev pub guarded : {A : Type 0} → (closed : Bool) → Query A → Query A
guarded true q d = (err (other none (codes "Database pool is closed")), d)
guarded false q d = q d

abbrev first_of : {A : Type 0} → Result (List A) × Db → Result (Option A) × Db
first_of (ok rows, d) = (ok (head? rows), d)
first_of (err e, d) = (err e, d)

unfoldable pub query_one : {A : Type 0} → (closed : Bool) → Query (List A) → Query (Option A)
query_one closed q d = first_of (guarded closed q d)
