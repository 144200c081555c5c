-- ===== src/Ledger/Exclusive.antt =====
-- How `IsExclusive`, the partial unique index on running runs, fares when runs change.
use micro_manus_services.Base.{ℕ, ◌≡◌, refl, Bool, false, List, [], ◌∷◌, any, update_where, arith}
use micro_manus_services.Db.{RunRow, is_running}
use micro_manus_services.Db.Statements.{runs_in}
use micro_manus_services.Ledger.Defs.{IsExclusive}

-- An update that ends runs, or leaves a run as it is.
abbrev pub Ends : (RunRow → RunRow) → Type 0
Ends f = (r : RunRow) → is_running (f r).status ≡ false

runs_in-update :
    (thread : ℕ) (p : RunRow → Bool) (f : RunRow → RunRow) (rs : List RunRow)
    → Ends f
    → any (runs_in thread) rs ≡ false
    → any (runs_in thread) (update_where p f rs) ≡ false
runs_in-update thread p f [] e h = refl
runs_in-update thread p f (r ∷ rs) e h = ground (arith, e r, runs_in-update thread p f rs e)

-- Ending runs keeps the index.
pub end-IsExclusive :
    (p : RunRow → Bool) (f : RunRow → RunRow) (rs : List RunRow)
    → Ends f
    → IsExclusive rs
    → IsExclusive (update_where p f rs)
end-IsExclusive p f [] e h = tt
end-IsExclusive p f (r ∷ rs) e h =
    (λ live. ground (arith, e r, runs_in-update r.thread_id p f rs e), end-IsExclusive p f rs e h.1)
