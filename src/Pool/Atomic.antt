-- ===== src/Pool/Atomic.antt =====
-- That a transaction of src/db/database.service.ts is all or nothing, and that no client is lost.
use micro_manus_services.Base.{
  ◌+◌, ⊤, ◌≡◌, refl, ◌⊎◌, inl, inr, Bool, true, false, none, some, arith,
}
use micro_manus_services.Db.{Db, Query, Result, ok, err, Error}
use micro_manus_services.Pool.{
  Link, Server, then_command, ran_working, run, committing, committed_by, or_roll_back, rolled_back,
  release, connected, client_tx, begun,
}

module _ {A : Type 0} (link : Link) (q : Query A) (s : Server) where
  abbrev opened : Server
  opened = record s { clients = s.clients + 1 }

  -- What follows the statements of the transaction, given what they did.
  abbrev ended : Result A × Db → Result A × Server
  ended x = release link (
      or_roll_back link (
        then_command (committing link)
          (ran_working x (record opened { working = some s.committed }))))

  -- A value is returned only where the statements succeed and the database is as they leave it;
  -- with an error it is so, or as before.
  abbrev pub AllOrNothing : Result A × Server → Type 0
  AllOrNothing (ok a, t) = q s.committed ≡ (ok a, t.committed)
  AllOrNothing (err e, t) =
      (t.committed ≡ s.committed) ⊎ ((a : A) × (q s.committed ≡ (ok a, t.committed)))

  pub record IsAtomic (y : Result A × Server) : Type 0 where
    pub idle : y.1.working ≡ none
    pub returned : y.1.clients ≡ s.clients
    pub all_or_nothing : AllOrNothing y

  rolled_back-IsAtomic :
      (r : Result ⊤) (e : Error) (t : Server)
      → t.clients ≡ s.clients + 1
      → (t.committed ≡ s.committed) ⊎ ((a : A) × (q s.committed ≡ (ok a, t.committed)))
      → IsAtomic (release link (rolled_back link r e t))
  rolled_back-IsAtomic (ok _) e t c h = record {
    idle = refl;
    returned = ground arith;
    all_or_nothing = h;
  }
  rolled_back-IsAtomic (err x) e t c h = record {
    idle = refl;
    returned = ground arith;
    all_or_nothing = h;
  }

  commit-IsAtomic :
      (k : Result ⊤) (landed : Bool) (a : A) (d : Db)
      → q s.committed ≡ (ok a, d)
      → IsAtomic (
          release link (
            or_roll_back link (
              then_command
                (λ _ t. (ok a, t))
                (committed_by link k landed (record opened { working = some d })))))
  commit-IsAtomic (ok _) landed a d h = record {
    idle = refl;
    returned = ground arith;
    all_or_nothing = h;
  }
  commit-IsAtomic (err e) true a d h =
      rolled_back-IsAtomic link.rollback e (record opened { committed = d; working = none }) refl
        (inr (a, h))
  commit-IsAtomic (err e) false a d h =
      rolled_back-IsAtomic link.rollback e (record opened { working = some d }) refl (inl refl)

  ended-IsAtomic : (x : Result A × Db) → q s.committed ≡ x → IsAtomic (ended x)
  ended-IsAtomic (ok a, d) h = commit-IsAtomic link.commit link.landed a d h
  ended-IsAtomic (err e, d) h =
      rolled_back-IsAtomic link.rollback e (record opened { working = some d }) refl (inl refl)

  begun-IsAtomic :
      (b : Result ⊤)
      → IsAtomic (
          release link (
            or_roll_back link (
              then_command
                (λ _ t. then_command (committing link) (run q t))
                (begun link b opened))))
  begun-IsAtomic (ok _) = ended-IsAtomic (q s.committed) refl
  begun-IsAtomic (err e) = rolled_back-IsAtomic link.rollback e opened refl (inl refl)

  connected-IsAtomic : s.working ≡ none → (c : Result ⊤) → IsAtomic (connected link c q s)
  connected-IsAtomic h (ok _) = begun-IsAtomic link.begin
  connected-IsAtomic h (err e) = record { idle = h; returned = refl; all_or_nothing = inl refl }

  -- Whatever fails of connecting, `BEGIN`, the statements, `COMMIT` and `ROLLBACK`, a transaction
  -- leaves nothing open and no client lost. If it returns a value, the database is as the
  -- statements leave it; if it throws, it is as before, or the statements succeeded and it is as
  -- they leave it.
  pub client_tx-IsAtomic : s.working ≡ none → IsAtomic (client_tx link q s)
  unfolding client_tx
  client_tx-IsAtomic h = connected-IsAtomic h link.connect
