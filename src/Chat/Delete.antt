-- ===== src/Chat/Delete.antt =====
-- Deleting a thread (`delete` of src/agent/chat.controller.ts) and the invariant of the database.
use micro_manus_services.Base.{
  ℕ, ◌≡◌, refl, inl, inr, Bool, false, List, [], ◌∷◌, arith, Bool-cases, keep, any, All,
}
use micro_manus_services.Db.{Db, RunRow, LedgerRow}
use micro_manus_services.Db.Statements.{runs_in}
use micro_manus_services.Ledger.{contains, NoDup, run_ids, Charged, IsExclusive}
use micro_manus_services.Ledger.Sound.{IsSound}
use micro_manus_services.World.{World}
use micro_manus_services.Chat.Transaction.{without_thread}
use micro_manus_services.Chat.Handlers.{delete_thread}
use micro_manus_services.Chat.Access.{assert_thread_cases}

module _ (p : RunRow → Bool) where
  contains-keep :
      (id : ℕ) (rs : List RunRow)
      → contains id (run_ids rs) ≡ false
      → contains id (run_ids (keep p rs)) ≡ false
  contains-keep id [] h = refl
  contains-keep id (r ∷ rs) h = ground (arith, contains-keep id rs)

  keys-keep : (rs : List RunRow) → NoDup (run_ids rs) → NoDup (run_ids (keep p rs))
  keys-keep [] h = tt
  keys-keep (r ∷ rs) h = ground (arith, contains-keep r.id rs h.0, keys-keep rs h.1)

  keep-Charged :
      (es : List LedgerRow) (rs : List RunRow) → All (Charged es) rs → All (Charged es) (keep p rs)
  keep-Charged es [] h = tt
  keep-Charged es (r ∷ rs) h = elim (Bool-cases (p r)) [
    | inl kept ↦ rw kept (h.0, keep-Charged es rs h.1)
    | inr gone ↦ rw gone (keep-Charged es rs h.1)
  ]

  runs_in-keep :
      (thread : ℕ) (rs : List RunRow)
      → any (runs_in thread) rs ≡ false
      → any (runs_in thread) (keep p rs) ≡ false
  runs_in-keep thread [] h = refl
  runs_in-keep thread (r ∷ rs) h = ground (arith, runs_in-keep thread rs)

  keep-IsExclusive : (rs : List RunRow) → IsExclusive rs → IsExclusive (keep p rs)
  keep-IsExclusive [] h = tt
  keep-IsExclusive (r ∷ rs) h = elim (Bool-cases (p r)) [
    | inl kept ↦ rw kept (λ alive. runs_in-keep r.thread_id rs (h.0 alive), keep-IsExclusive rs h.1)
    | inr gone ↦ rw gone (keep-IsExclusive rs h.1)
  ]

pub without_thread-IsSound : (id : ℕ) (d : Db) → IsSound d → IsSound (without_thread id d)
without_thread-IsSound id d v = record {
  balanced = v.balanced;
  charged = record {
    keys = keys-keep _ d.runs v.charged.keys;
    charged = keep-Charged _ d.credit_ledger d.runs v.charged.charged;
  };
  exclusive = keep-IsExclusive _ d.runs v.exclusive;
}

-- A request to delete a thread, also while it has a running run, keeps the invariant of the
-- database.
pub delete_thread-IsSound :
    (user id : ℕ) (w : World) → IsSound w.db → IsSound (delete_thread user id w).1.db
unfolding delete_thread
delete_thread-IsSound user id w v = elim (assert_thread_cases user id w) [
  | inl (stranger, e) ↦ rw e v
  | inr (t, mine, e) ↦ rw e (without_thread-IsSound id w.db v)
]
