-- ===== src/Keys/Merged.antt =====
-- A sign-in of src/auth/auth.service.ts and the keys, also where `mergeUsers` folds two accounts
-- into one.
use micro_manus_services.Base.{
  ℕ, ⊤, inl, inr, Bool, ◌||◌, Option, none, some, Bool-cases, Text, find, any,
}
use micro_manus_services.Db.{
  Db, Result, ok, err, UserRow, ◌>>◌, KeyProvider, OauthProvider, then_run, settle,
}
use micro_manus_services.Db.Statements.{is_user, update_credits_cases}
use micro_manus_services.Keys.Probe.{Fetch}
use micro_manus_services.Keys.Store.{add_key, delete_key}
use micro_manus_services.Keys.Unique.{IsKeyed, add_key-IsKeyed, delete_key-IsKeyed}
use micro_manus_services.Auth.Login.{
  Decoded, reassign, delete_user, merge_users, carry_credits, heal, upsert, login_tx, login_as,
  login_result, login_with_id_token, insert_user, update_user, returned, provider_of, has_identity,
  has_email, taken_by,
}
use micro_manus_services.Keys.Moved.{every-Covers, moved-IsKeyed}

KeyedIfOk : {A : Type 0} → Result A × Db → Type 0
KeyedIfOk (err e, d) = Unit
KeyedIfOk (ok a, d) = IsKeyed d.api_keys

merge_users-KeyedIfOk :
    (loser winner : ℕ) (d : Db) → IsKeyed d.api_keys → KeyedIfOk (merge_users loser winner d)
unfolding merge_users KeyedIfOk
merge_users-KeyedIfOk loser winner d h = by_loser (find (is_user loser) d.users)
  where
    by_loser :
        (o : Option UserRow)
        → KeyedIfOk (
            (carry_credits o winner >> (λ d. (ok tt, delete_user loser d)))
              (reassign winner loser d))
    by_loser none = tt
    by_loser (some u) =
        elim (update_credits_cases (is_user winner) u.credits (reassign winner loser d)) [
          | inl (x, e) ↦ rw e tt
          | inr (fits, e) ↦ rw e (
              moved-IsKeyed winner loser d.api_keys d.api_keys
                (every-Covers winner loser d.api_keys) h)
        ]

settle-IsKeyed :
    {A : Type 0} (d : Db) (x : Result A × Db)
    → IsKeyed d.api_keys
    → KeyedIfOk x
    → IsKeyed (settle d x).1.api_keys
unfolding KeyedIfOk
settle-IsKeyed d (ok a, d') h k = k
settle-IsKeyed d (err e, d') h k = h

module _ (provider : OauthProvider) (who : Decoded) (email : Text) (is_admin : Bool) where
  heal-KeyedIfOk :
      (ids : Option (ℕ × ℕ)) (d : Db)
      → IsKeyed d.api_keys
      → KeyedIfOk (heal provider who email is_admin ids d)
  unfolding KeyedIfOk
  heal-KeyedIfOk none d h = h
  heal-KeyedIfOk (some (loser, winner)) d h = merge_users-KeyedIfOk loser winner d h

  returned-KeyedIfOk :
      (o : Option UserRow) (d : Db)
      → IsKeyed d.api_keys
      → KeyedIfOk (returned provider who email is_admin o d)
  unfolding KeyedIfOk
  returned-KeyedIfOk none d h = tt
  returned-KeyedIfOk (some u) d h = h

  upsert-KeyedIfOk :
      (fresh : ℕ) (target : Option ℕ) (d : Db)
      → IsKeyed d.api_keys
      → KeyedIfOk (upsert provider who email is_admin fresh target d)
  unfolding insert_user update_user KeyedIfOk
  upsert-KeyedIfOk fresh none d h =
      elim (Bool-cases (
        any (is_user fresh) d.users
        || any (λ u. has_email email u || has_identity provider who.uid u) d.users)) [
          | inl taken ↦ rw taken tt
          | inr free ↦ rw free h
        ]
  upsert-KeyedIfOk fresh (some id) d h =
      elim (Bool-cases (any (taken_by provider who email is_admin id) d.users)) [
        | inl taken ↦ rw taken tt
        | inr free ↦ rw free (returned-KeyedIfOk _ _ h)
      ]

  healed-KeyedIfOk :
      (fresh : ℕ) (target : Option ℕ) (x : Result ⊤ × Db)
      → KeyedIfOk x
      → KeyedIfOk (then_run (λ _. upsert provider who email is_admin fresh target) x)
  unfolding KeyedIfOk
  healed-KeyedIfOk fresh target (err e, d) h = tt
  healed-KeyedIfOk fresh target (ok a, d) h = upsert-KeyedIfOk fresh target d h

  login_tx-KeyedIfOk :
      (fresh : ℕ) (d : Db)
      → IsKeyed d.api_keys
      → KeyedIfOk (login_tx provider who email is_admin fresh d)
  unfolding login_tx
  login_tx-KeyedIfOk fresh d h = healed-KeyedIfOk fresh _ _ (heal-KeyedIfOk _ d h)

module _ (resolve_email : Text → Option Text) (admin_email : Option Text) (fresh : ℕ) (d : Db)
    (h : IsKeyed d.api_keys) where
  login_as-IsKeyed :
      (who : Decoded) (p : Option OauthProvider)
      → IsKeyed (login_as resolve_email admin_email who fresh p d).1.api_keys
  login_as-IsKeyed who none = h
  login_as-IsKeyed who (some p) = settle-IsKeyed d _ h (login_tx-KeyedIfOk p who _ _ fresh d h)

  login_result-IsKeyed :
      (r : Result Decoded) → IsKeyed (login_result resolve_email admin_email fresh r d).1.api_keys
  login_result-IsKeyed (err e) = h
  login_result-IsKeyed (ok who) = login_as-IsKeyed who (provider_of who.sign_in_provider)

  login_with_id_token-IsKeyed :
      (verify : Text → Result Decoded) (token : Text)
      → IsKeyed (login_with_id_token resolve_email admin_email verify token fresh d).1.api_keys
  unfolding login_with_id_token
  login_with_id_token-IsKeyed verify token = login_result-IsKeyed (verify token)

-- If no two keys are of one user and one provider, then that is so after a key is added or
-- replaced, whatever the provider's API answers; after a key is deleted; and after any sign-in,
-- also one that folds two accounts into one whose users each have a key of the same provider.
pub keys-IsKeyed :
    (d : Db)
    → IsKeyed d.api_keys
    → ((fetch : Fetch) (encrypt : Text → Text) (fresh user : ℕ) (key : Text)
          (provider : Option KeyProvider) (base : Option Text)
        → IsKeyed (add_key fetch encrypt fresh user key provider base d).1.api_keys)
      × ((user id : ℕ) → IsKeyed (delete_key user id d).1.api_keys)
      × ((resolve_email : Text → Option Text) (admin_email : Option Text)
            (verify : Text → Result Decoded) (token : Text) (fresh : ℕ)
          → IsKeyed (login_with_id_token resolve_email admin_email verify token fresh d).1.api_keys)
keys-IsKeyed d h = (
  λ fetch encrypt fresh user key provider base.
      add_key-IsKeyed fetch encrypt fresh user key d h provider base,
  λ user id. delete_key-IsKeyed user id d h,
  λ resolve_email admin_email verify token fresh.
      login_with_id_token-IsKeyed resolve_email admin_email fresh d h verify token,
)
