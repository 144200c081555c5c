-- ===== src/Auth/SignIn.antt =====
-- A whole sign-in of src/auth/auth.service.ts and the invariant of the database.
use micro_manus_services.Base.{
  ℕ, ◌≡◌, refl, inl, inr, Bool, true, Option, none, some, arith, ◌==◌, Bool-cases, Text, find,
}
use micro_manus_services.Db.{Db, Query, Result, ok, err, UserRow, OauthProvider, settle, then_run}
use micro_manus_services.Db.Statements.{has_user}
use micro_manus_services.Ledger.Sound.{IsSound}
use micro_manus_services.Auth.Login.{
  Decoded, has_identity, has_email, heal, upsert, login_tx, duplicates, survivor, login_as,
  login_with_id_token, login_result, provider_of,
}
use micro_manus_services.Auth.Merge.{SoundIfOk, merge_users-SoundIfOk}
use micro_manus_services.Auth.Accounts.{upsert-SoundIfOk, find-has_user}

then_run-SoundIfOk :
    {A B : Type 0} (f : A → Query B) (x : Result A × Db)
    → SoundIfOk x
    → ((a : A) (d : Db) → IsSound d → SoundIfOk (f a d))
    → SoundIfOk (then_run f x)
then_run-SoundIfOk f (ok a, d) v h = h a d v
then_run-SoundIfOk f (err e, d) v h = tt

settle-IsSound :
    {A : Type 0} (d : Db) (x : Result A × Db) → IsSound d → SoundIfOk x → IsSound (settle d x).1
settle-IsSound d (ok a, d') v h = h
settle-IsSound d (err e, d') v h = v

module _ (provider : OauthProvider) (who : Decoded) (email : Text) (is_admin : Bool) where
  heal-SoundIfOk :
      (i e : Option UserRow) (d : Db)
      → ((u : UserRow) → e ≡ some u → has_user u.id d.users ≡ true)
      → IsSound d
      → SoundIfOk (heal provider who email is_admin (duplicates i e) d)
  heal-SoundIfOk none e d k v = v
  heal-SoundIfOk (some i) none d k v = v
  heal-SoundIfOk (some i) (some e) d k v = elim (Bool-cases (i.id == e.id)) [
    | inl same ↦ rw same v
    | inr differ ↦ rw differ (merge_users-SoundIfOk i.id e.id d (λ q. ground arith) (k e refl) v)
  ]

  login_tx-SoundIfOk :
      (fresh : ℕ) (d : Db) → IsSound d → SoundIfOk (login_tx provider who email is_admin fresh d)
  unfolding login_tx
  login_tx-SoundIfOk fresh d v =
      then_run-SoundIfOk
        (λ _. upsert provider who email is_admin fresh (
          survivor (find (has_identity provider who.uid) d.users) (find (has_email email) d.users)))
        (heal provider who email is_admin
          (duplicates (find (has_identity provider who.uid) d.users)
            (find (has_email email) d.users))
          d)
        (heal-SoundIfOk _ _ d (λ u q. find-has_user (has_email email) d.users u q) v)
        (λ _ d' v'. upsert-SoundIfOk provider who email is_admin fresh _ d' v')

module _ (resolve_email : Text → Option Text) (admin_email : Option Text) where
  login_as-IsSound :
      (who : Decoded) (fresh : ℕ) (p : Option OauthProvider) (d : Db)
      → IsSound d
      → IsSound (login_as resolve_email admin_email who fresh p d).1
  login_as-IsSound who fresh none d v = v
  login_as-IsSound who fresh (some p) d v =
      settle-IsSound d _ v (login_tx-SoundIfOk p who _ _ fresh d v)

  login_result-IsSound :
      (fresh : ℕ) (r : Result Decoded) (d : Db)
      → IsSound d
      → IsSound (login_result resolve_email admin_email fresh r d).1
  login_result-IsSound fresh (err e) d v = v
  login_result-IsSound fresh (ok who) d v =
      login_as-IsSound who fresh (provider_of who.sign_in_provider) d v

  -- Whatever token is sent and whatever it is verified as, a sign-in keeps the invariant: every
  -- balance is its ledger's sum and not negative, every run is charged once, and no thread has two
  -- running runs. Accounts that it folds into one are no exception.
  pub login_with_id_token-IsSound :
      (verify : Text → Result Decoded) (token : Text) (fresh : ℕ) (d : Db)
      → IsSound d
      → IsSound (login_with_id_token resolve_email admin_email verify token fresh d).1
  unfolding login_with_id_token
  login_with_id_token-IsSound verify token fresh d v = login_result-IsSound fresh (verify token) d v
