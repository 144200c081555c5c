-- ===== src/Ledger/Charges.antt =====
-- How `IsCharged` fares when runs change together with the ledger.
use micro_manus_services.Base.{
  ℕ, ◌≡◌, refl, ◌≢◌, Bool, true, false, ◌&&◌, List, [], ◌∷◌, ◌==◌, if◌then◌else◌, keep, Bool-cases,
  inl, inr, any, update_where, All, some, Text, arith,
}
use micro_manus_services.Db.{RunRow, LedgerRow, Reason, Ref, RunStatus, is_running}
use micro_manus_services.Db.Statements.{is_run}
use micro_manus_services.Ledger.Balance.{map-update_where}
use micro_manus_services.Ledger.Defs.{
  debits, refunds, contains, NoDup, run_ids, Charged, IsCharged, is_debit, is_refund,
}

-- A ledger row that is about no run.
abbrev pub IsNeutral : LedgerRow → Type 0
IsNeutral e = (is_debit e.reason ≡ false) × (is_refund e.reason ≡ false)

neutral-Charged :
    (e : LedgerRow) (rs : List RunRow) (es : List LedgerRow)
    → IsNeutral e
    → All (Charged es) rs
    → All (Charged (e ∷ es)) rs
neutral-Charged e [] es n h = tt
neutral-Charged e (r ∷ rs) es n h = (ground arith, neutral-Charged e rs es n h.1)

pub neutral-IsCharged :
    (e : LedgerRow) (rs : List RunRow) (es : List LedgerRow)
    → IsNeutral e
    → IsCharged rs es
    → IsCharged rs (e ∷ es)
neutral-IsCharged e rs es n v = record {
  keys = v.keys;
  charged = neutral-Charged e rs es n v.charged;
}

pub any-is_run : (id : ℕ) (rs : List RunRow) → any (is_run id) rs ≡ contains id (run_ids rs)
any-is_run id [] = refl
any-is_run id (r ∷ rs) = ground (arith, any-is_run id rs)

other-Charged :
    (id : ℕ) (e : LedgerRow) (rs : List RunRow) (es : List LedgerRow)
    → e.ref_id ≡ Ref.ref_run id
    → contains id (run_ids rs) ≡ false
    → All (Charged es) rs
    → All (Charged (e ∷ es)) rs
other-Charged id e [] es q a h = tt
other-Charged id e (r ∷ rs) es q a h = (ground arith, other-Charged id e rs es q (ground arith) h.1)

-- A new run under a fresh key, with its charge.
pub start-IsCharged :
    (r : RunRow) (e : LedgerRow) (rs : List RunRow) (es : List LedgerRow)
    → e.reason ≡ Reason.debit
    → e.ref_id ≡ Ref.ref_run r.id
    → r.status ≡ RunStatus.running
    → any (is_run r.id) rs ≡ false
    → debits r.id es ≡ 0
    → refunds r.id es ≡ 0
    → IsCharged rs es
    → IsCharged (r ∷ rs) (e ∷ es)
start-IsCharged r e rs es q p s new d f v = record {
  keys = (fresh, v.keys);
  charged = ((ground arith, ground arith), other-Charged r.id e rs es p fresh v.charged);
}
  where
    fresh : contains r.id (run_ids rs) ≡ false
    fresh = ground (arith, any-is_run r.id rs)

-- `WHERE id = $1 AND status = 'running'`
abbrev pub is_live : ℕ → RunRow → Bool
is_live id r = r.id == id && is_running r.status

finish-Charged :
    (p : RunRow → Bool) (f : RunRow → RunRow) (rs : List RunRow) (es : List LedgerRow)
    → ((r : RunRow) → Charged es r → p r ≡ true → Charged es (f r))
    → All (Charged es) rs
    → All (Charged es) (update_where p f rs)
finish-Charged p f [] es g h = tt
finish-Charged p f (r ∷ rs) es g h = (ground (arith, g r h.0), finish-Charged p f rs es g h.1)

abbrev pub set_done : RunRow → RunRow
set_done r = record r { status = RunStatus.done }

abbrev pub set_failed : Text → RunRow → RunRow
set_failed message r = record r { status = RunStatus.failed; error = some message }

done-Charged :
    (id : ℕ) (es : List LedgerRow) (r : RunRow)
    → Charged es r
    → is_live id r ≡ true
    → Charged es (set_done r)
done-Charged id es r c h = ground arith

-- A run that is done keeps its one charge.
pub done-IsCharged :
    (id : ℕ) (rs : List RunRow) (es : List LedgerRow)
    → IsCharged rs es
    → IsCharged (update_where (is_live id) set_done rs) es
done-IsCharged id rs es v = record {
  keys = rw (map-update_where (λ r. r.id) (is_live id) set_done (λ r. refl) rs) v.keys;
  charged = finish-Charged (is_live id) set_done rs es (done-Charged id es) v.charged;
}

keep-contains :
    (id : ℕ) (rs : List RunRow) → keep (is_live id) rs ≢ [] → contains id (run_ids rs) ≡ true
keep-contains id [] h = absurd (h refl)
keep-contains id (r ∷ rs) h = ground (arith, keep-contains id rs)

update-absent :
    (id : ℕ) (f : RunRow → RunRow) (rs : List RunRow)
    → contains id (run_ids rs) ≡ false
    → update_where (is_live id) f rs ≡ rs
update-absent id f [] h = refl
update-absent id f (r ∷ rs) h = ground (arith, update-absent id f rs)

-- The first row is the one that fails: the later rows have other keys.
fail_here-Charged :
    (id : ℕ) (message : Text) (e : LedgerRow) (r : RunRow) (rs : List RunRow) (es : List LedgerRow)
    → e.reason ≡ Reason.refund
    → e.ref_id ≡ Ref.ref_run id
    → r.id ≡ id
    → is_running r.status ≡ true
    → contains id (run_ids rs) ≡ false
    → Charged es r
    → All (Charged es) rs
    → All (Charged (e ∷ es)) (update_where (is_live id) (set_failed message) (r ∷ rs))
fail_here-Charged id message e r rs es q p i s a c h = (
  (ground arith, ground arith),
  rw (update-absent id (set_failed message) rs a) (other-Charged id e rs es p a h),
)

fail_later-Charged :
    (id : ℕ) (message : Text) (e : LedgerRow) (r : RunRow) (es : List LedgerRow)
    → e.ref_id ≡ Ref.ref_run id
    → (r.id == id) ≡ false
    → Charged es r
    → Charged (e ∷ es) (if is_live id r then set_failed message r else r)
fail_later-Charged id message e r es p i c = (ground arith, ground arith)

fail-Charged :
    (id : ℕ) (message : Text) (e : LedgerRow) (rs : List RunRow) (es : List LedgerRow)
    → e.reason ≡ Reason.refund
    → e.ref_id ≡ Ref.ref_run id
    → keep (is_live id) rs ≢ []
    → NoDup (run_ids rs)
    → All (Charged es) rs
    → All (Charged (e ∷ es)) (update_where (is_live id) (set_failed message) rs)
fail-Charged id message e [] es q p some_live d h = absurd (some_live refl)
fail-Charged id message e (r ∷ rs) es q p some_live d h = elim (Bool-cases (r.id == id)) [
  | inl hit ↦
      fail_here-Charged id message e r rs es q p (ground arith)
        (ground (arith, keep-contains id rs)) (ground arith) h.0 h.1
  | inr miss ↦ (
    fail_later-Charged id message e r es p miss h.0,
    fail-Charged id message e rs es q p (ground arith) d.1 h.1,
  )
]

-- A running run that fails is refunded.
pub fail-IsCharged :
    (id : ℕ) (message : Text) (e : LedgerRow) (rs : List RunRow) (es : List LedgerRow)
    → e.reason ≡ Reason.refund
    → e.ref_id ≡ Ref.ref_run id
    → keep (is_live id) rs ≢ []
    → IsCharged rs es
    → IsCharged (update_where (is_live id) (set_failed message) rs) (e ∷ es)
fail-IsCharged id message e rs es q p some_live v = record {
  keys = rw (map-update_where (λ r. r.id) (is_live id) (set_failed message) (λ r. refl) rs) v.keys;
  charged = fail-Charged id message e rs es q p some_live v.keys v.charged;
}
