-- ===== src/Db/Statements.antt =====
-- The SQL statements that several services run, each with the constraints of db/migrations that can
-- reject it. Statements are atomic: one that fails leaves the database as it was.
use micro_manus_services.Base.{
  ℕ, ⊤, Bool, ◌&&◌, ◌||◌, ◌⊎◌, inl, inr, Bool-cases, Option-cases, arith, ◌≡◌, Option, none, some,
  List, [], ◌∷◌, map, ◌==◌, if◌then◌else◌, keep, any, update_where, false,
}
use micro_manus_services.Base.Int.{ℤ, pos, ◌+ℤ◌, ltb_ℤ}
use micro_manus_services.Db.Rows.{
  Db, UserRow, ThreadRow, RunRow, MessageRow, Reason, Ref, is_running, LedgerRow,
}
use micro_manus_services.Db.Sql.{Query, Result, ok, err, pg, SqlState, Error}

-- The largest value of a Postgres `int`.
abbrev pub int_max : ℕ
int_max = 2147483647

-- What `CHECK (credits >= 0)` and the range of `int` say of a new value.
abbrev pub credits_error : ℤ → Option SqlState
credits_error c =
    if ltb_ℤ (pos int_max) c
    then some SqlState.numeric_value_out_of_range
    else if ltb_ℤ c (pos 0)
    then some SqlState.check_violation
    else none

-- The first row of `users` that the constraint rejects.
abbrev pub users_error : List UserRow → Option SqlState
users_error [] = none
users_error (u ∷ us) = elim (credits_error u.credits) [ some e ↦ some e | none ↦ users_error us ]

abbrev pub is_user : ℕ → UserRow → Bool
is_user id u = u.id == id

abbrev pub add_to_credits : ℤ → UserRow → UserRow
add_to_credits delta u = record u { credits = u.credits +ℤ delta }

abbrev pub credits_of : UserRow → ℤ
credits_of u = u.credits

abbrev pub write_users : List UserRow → List ℤ → Db → Result (List ℤ) × Db
write_users us returned d = elim (users_error us) [
  | some e ↦ (err (pg e), d)
  | none ↦ (ok returned, record d { users = us })
]

-- UPDATE users SET credits = credits + delta WHERE p RETURNING credits
unfoldable pub update_credits : (UserRow → Bool) → ℤ → Query (List ℤ)
update_credits p delta d =
    write_users (update_where p (add_to_credits delta) d.users)
      (map (λ u. u.credits +ℤ delta) (keep p d.users)) d

abbrev pub has_user : ℕ → List UserRow → Bool
has_user id us = any (is_user id) us

abbrev pub is_thread : ℕ → ThreadRow → Bool
is_thread id t = t.id == id

abbrev pub is_run : ℕ → RunRow → Bool
is_run id r = r.id == id

-- INSERT INTO credit_ledger (user_id, delta, reason, ref_id)
unfoldable pub insert_ledger : ℕ → ℤ → Reason → Ref → Query ⊤
insert_ledger user_id delta reason ref_id d =
    if has_user user_id d.users
    then (
      ok tt,
      record d {
        credit_ledger =
            (record { user_id = user_id; delta = delta; reason = reason; ref_id = ref_id })
            ∷ d.credit_ledger;
      },
    )
    else (err (pg SqlState.foreign_key_violation), d)

-- INSERT INTO messages, with its fresh key
unfoldable pub insert_message : MessageRow → Query ⊤
insert_message m d =
    if any (λ r. r.id == m.id) d.messages
    then (err (pg SqlState.unique_violation), d)
    else if any (is_thread m.thread_id) d.threads
    then (ok tt, record d { messages = m ∷ d.messages })
    else (err (pg SqlState.foreign_key_violation), d)

-- The partial unique index `runs_one_running_per_thread`.
abbrev pub runs_in : ℕ → RunRow → Bool
runs_in thread_id r = r.thread_id == thread_id && is_running r.status

-- INSERT INTO runs (a new row is 'running'), with its fresh key
unfoldable pub insert_run : RunRow → Query ⊤
insert_run r d =
    if any (is_run r.id) d.runs || any (runs_in r.thread_id) d.runs
    then (err (pg SqlState.unique_violation), d)
    else if any (is_thread r.thread_id) d.threads && has_user r.user_id d.users
    then (ok tt, record d { runs = r ∷ d.runs })
    else (err (pg SqlState.foreign_key_violation), d)

-- Each insertion is made or is rejected and changes nothing.
pub insert_message_cases :
    (m : MessageRow) (d : Db)
    → ((x : Error) × (insert_message m d ≡ (err x, d)))
      ⊎ (insert_message m d ≡ (ok tt, record d { messages = m ∷ d.messages }))
insert_message_cases m d = elim (Bool-cases (any (λ r. r.id == m.id) d.messages)) [
  | inl old ↦ inl (pg SqlState.unique_violation, unfold insert_message in ground arith)
  | inr new ↦ elim (Bool-cases (any (is_thread m.thread_id) d.threads)) [
    | inl known ↦ inr (unfold insert_message in ground arith)
    | inr absent ↦ inl (pg SqlState.foreign_key_violation, unfold insert_message in ground arith)
  ]
]

pub insert_run_cases :
    (r : RunRow) (d : Db)
    → ((x : Error) × (insert_run r d ≡ (err x, d)))
      ⊎ ((any (is_run r.id) d.runs ≡ false)
          × (any (runs_in r.thread_id) d.runs ≡ false)
          × (insert_run r d ≡ (ok tt, record d { runs = r ∷ d.runs })))
insert_run_cases r d =
    elim (Bool-cases (any (is_run r.id) d.runs || any (runs_in r.thread_id) d.runs)) [
      | inl old ↦ inl (pg SqlState.unique_violation, unfold insert_run in ground arith)
      | inr new ↦
          elim (Bool-cases (any (is_thread r.thread_id) d.threads && has_user r.user_id d.users)) [
            | inl known ↦ inr (ground arith, ground arith, unfold insert_run in ground arith)
            | inr absent ↦
                inl (pg SqlState.foreign_key_violation, unfold insert_run in ground arith)
          ]
    ]

pub insert_ledger_cases :
    (e : LedgerRow) (d : Db)
    → ((x : Error) × (insert_ledger e.user_id e.delta e.reason e.ref_id d ≡ (err x, d)))
      ⊎ (insert_ledger e.user_id e.delta e.reason e.ref_id d
          ≡ (ok tt, record d { credit_ledger = e ∷ d.credit_ledger }))
insert_ledger_cases e d = elim (Bool-cases (has_user e.user_id d.users)) [
  | inl known ↦ inr (unfold insert_ledger in ground arith)
  | inr absent ↦ inl (pg SqlState.foreign_key_violation, unfold insert_ledger in ground arith)
]

pub update_credits_cases :
    (p : UserRow → Bool) (delta : ℤ) (d : Db)
    → ((x : Error) × (update_credits p delta d ≡ (err x, d)))
      ⊎ ((users_error (update_where p (add_to_credits delta) d.users) ≡ none)
          × (update_credits p delta d ≡ (
            ok (map (λ u. u.credits +ℤ delta) (keep p d.users)),
            record d { users = update_where p (add_to_credits delta) d.users },
          )))
update_credits_cases p delta d =
    elim (Option-cases (users_error (update_where p (add_to_credits delta) d.users))) [
      | inl fits ↦ inr (fits, unfold update_credits in ground arith)
      | inr (x, bad) ↦ inl (pg x, unfold update_credits in ground arith)
    ]
