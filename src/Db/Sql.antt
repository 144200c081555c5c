-- ===== src/Db/Sql.antt =====
-- Statements and transactions of src/db/database.service.ts: a program over the database returns a
-- value or an error, and the database as it leaves it.
use micro_manus_services.Base.{ℕ, ⊤, Bool, Option, Text, if◌then◌else◌}
use micro_manus_services.Db.Rows.{Db}

-- The SQLSTATE classes of db/migrations' constraints, by the names of the Postgres manual:
-- 23505, 23503, 23502, 22P02, 23514 and 22003.
pub data SqlState : Type 0 where
  unique_violation foreign_key_violation not_null_violation : SqlState
  invalid_text_representation check_violation numeric_value_out_of_range : SqlState

-- What is thrown: a Nest `HttpException`, a `pg` error with its code, or another `Error`. An error
-- of a provider's SDK may carry an HTTP status.
pub data Error : Type 0 where
  http : (status : ℕ) (message : Text) → Error
  pg : SqlState → Error
  other : (status : Option ℕ) (message : Text) → Error

pub data Result {ℓ} (A : Type ℓ) : Type ℓ where
  ok : A → Result A
  err : Error → Result A

abbrev pub Query : Type 0 → Type 0
Query A = Db → Result A × Db

module _ {A : Type 0} where
  abbrev pub pure : A → Query A
  pure a d = (ok a, d)

  abbrev pub throw : Error → Query A
  throw e d = (err e, d)

  abbrev pub gets : (Db → A) → Query A
  gets f d = (ok (f d), d)

-- What follows a statement runs where that succeeded.
abbrev pub then_run : {A B : Type 0} → (A → Query B) → Result A × Db → Result B × Db
then_run f (ok a, d) = f a d
then_run f (err e, d) = (err e, d)

infixl 5 ◌>>=◌ ◌>>◌
abbrev pub ◌>>=◌ : {A B : Type 0} → Query A → (A → Query B) → Query B
◌>>=◌ m f d = then_run f (m d)

abbrev pub ◌>>◌ : {A B : Type 0} → Query A → Query B → Query B
m >> k = m >>= λ _. k

abbrev pub throw_if : Bool → Error → Query ⊤
throw_if b e d = (if b then err e else ok tt, d)

abbrev pub modify : (Db → Db) → Query ⊤
modify f d = (ok tt, f d)

-- `tx`: `COMMIT` keeps the changes; an error is a `ROLLBACK` and is thrown on.
abbrev pub settle : {A : Type 0} → Db → Result A × Db → Result A × Db
settle d (ok a, d') = (ok a, d')
settle d (err e, d') = (err e, d)

abbrev pub tx : {A : Type 0} → Query A → Query A
tx body d = settle d (body d)
