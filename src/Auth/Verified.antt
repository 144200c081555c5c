-- ===== src/Auth/Verified.antt =====
-- Who can sign in (src/auth/auth.service.ts with src/auth/firebase.service.ts).
use micro_manus_services.Base.{
  ℕ, ⊤, ◌≡◌, refl, sym, ap, ◌∙◌, Bool-cases, ◌⊎◌, inl, inr, Bool, true, false, ◌||◌, Option, none,
  some, List, [], ◌∷◌, arith, if◌then◌else◌, Text, find, any, update_where, text_eq, ==_iff,
}
use micro_manus_services.Db.{
  Db, Result, ok, err, Error, pg, SqlState, UserRow, OauthProvider, tx, settle, then_run,
}
use micro_manus_services.Db.Statements.{is_user}
use micro_manus_services.Auth.Login.{
  Decoded, login_with_id_token, login_result, login_as, login_tx, update_user, insert_user, upsert,
  heal, returned, refreshed, provider_of, email_of, duplicates, survivor, has_identity, has_email,
  new_user, taken_by, text_or_empty,
}
use micro_manus_services.Auth.Firebase.{
  Sdk, verify_id_token, resolve_email, checked, not_configured, invalid_token,
}
use micro_manus_services.Base.Chars.{to_lower_case, trim}
use mathlib.Core.Path.{subst}

-- The account that has the email, else the one that has the identity, else a new one.
abbrev pub IsTarget : OauthProvider → Decoded → Text → ℕ → Db → ℕ → Type 0
IsTarget p who email fresh d id =
    ((v : UserRow) × (find (has_email email) d.users ≡ some v) × (id ≡ v.id))
    ⊎ ((v : UserRow) × (find (has_email email) d.users ≡ none)
        × (find (has_identity p who.uid) d.users ≡ some v)
        × (id ≡ v.id))
    ⊎ ((find (has_email email) d.users ≡ none)
        × (find (has_identity p who.uid) d.users ≡ none)
        × (id ≡ fresh))

-- The user who is returned has the identity and the email, and is that account.
pub record IsRow (p : OauthProvider) (who : Decoded) (email : Text) (id : ℕ) (u : UserRow)
    : Type 0 where
  pub provider : u.oauth_provider ≡ p
  pub uid : u.oauth_id ≡ who.uid
  pub address : u.email ≡ email
  pub account : u.id ≡ id

pub IsRowOf : OauthProvider → Decoded → Text → ℕ → Result UserRow × Db → Type 0
IsRowOf p who email id (ok u, d) = IsRow p who email id u
IsRowOf p who email id (err e, d) = ⊤

-- The same of a whole sign-in into a database.
pub record IsAccount (who : Decoded) (email : Text) (fresh : ℕ) (d : Db) (u : UserRow)
    : Type 0 where
  pub provider : provider_of who.sign_in_provider ≡ some u.oauth_provider
  pub uid : u.oauth_id ≡ who.uid
  pub address : u.email ≡ email
  pub account : IsTarget u.oauth_provider who email fresh d u.id

pub IsAccountOf : Decoded → Text → ℕ → Db → Result UserRow × Db → Type 0
IsAccountOf who email fresh d (ok u, d') = IsAccount who email fresh d u
IsAccountOf who email fresh d (err e, d') = ⊤

module _ (p : OauthProvider) (who : Decoded) (email : Text) (admin : Bool) where
  refreshed-IsRow :
      (id : ℕ) (us : List UserRow) (u : UserRow)
      → find (is_user id) (update_where (is_user id) (refreshed p who email admin) us) ≡ some u
      → IsRow p who email id u
  refreshed-IsRow id [] u h = absurd cc
  refreshed-IsRow id (v ∷ us) u h = elim (Bool-cases (is_user id v)) [
    | inl hit ↦
        subst (IsRow p who email id) (first hit h)
          (record { provider = refl; uid = refl; address = refl; account = (==_iff v.id id).0 hit })
    | inr miss ↦ refreshed-IsRow id us u (rest miss h)
  ]
    where
      first :
          is_user id v ≡ true
          → find (is_user id) (update_where (is_user id) (refreshed p who email admin) (v ∷ us))
            ≡ some u
          → refreshed p who email admin v ≡ u
      first hit h = ground (arith, h, hit)

      rest :
          is_user id v ≡ false
          → find (is_user id) (update_where (is_user id) (refreshed p who email admin) (v ∷ us))
            ≡ some u
          → find (is_user id) (update_where (is_user id) (refreshed p who email admin) us) ≡ some u
      rest miss h = ground (arith, h, miss)

  returned-IsRowOf :
      (id : ℕ) (found : Option UserRow) (d : Db)
      → ((u : UserRow) → found ≡ some u → IsRow p who email id u)
      → IsRowOf p who email id (returned p who email admin found d)
  unfolding IsRowOf
  returned-IsRowOf id none d h = tt
  returned-IsRowOf id (some u) d h = h u refl

  if-IsRowOf :
      (id : ℕ) (b : Bool) (x y : Result UserRow × Db)
      → IsRowOf p who email id x
      → IsRowOf p who email id y
      → IsRowOf p who email id (if b then x else y)
  if-IsRowOf id true x y h k = h
  if-IsRowOf id false x y h k = k

  -- The key that the row of an `upsert` has.
  abbrev key_of : ℕ → Option ℕ → ℕ
  key_of fresh none = fresh
  key_of fresh (some id) = id

  upsert-IsRowOf :
      (fresh : ℕ) (target : Option ℕ) (d : Db)
      → IsRowOf p who email (key_of fresh target) (upsert p who email admin fresh target d)
  unfolding insert_user update_user IsRowOf
  upsert-IsRowOf fresh none d =
      if-IsRowOf fresh
        (any (is_user fresh) d.users
          || any (λ u. has_email email u || has_identity p who.uid u) d.users)
        (err (pg SqlState.unique_violation), d)
        (
          ok (new_user p who email admin fresh),
          record d { users = new_user p who email admin fresh ∷ d.users },
        )
        tt (record { provider = refl; uid = refl; address = refl; account = refl })
  upsert-IsRowOf fresh (some id) d =
      let updated : List UserRow =
        update_where (is_user id) (refreshed p who email admin) d.users in
      if-IsRowOf id (any (taken_by p who email admin id) d.users)
        (err (pg SqlState.unique_violation), d)
        (returned p who email admin (find (is_user id) updated) (record d { users = updated })) tt
        (returned-IsRowOf id (find (is_user id) updated) (record d { users = updated })
          (refreshed-IsRow id d.users))

  healed-IsRowOf :
      (x : Result ⊤ × Db) (fresh : ℕ) (target : Option ℕ)
      → IsRowOf p who email
          (key_of fresh target)
          (then_run (λ _. upsert p who email admin fresh target) x)
  unfolding IsRowOf
  healed-IsRowOf (ok a, d) fresh target = upsert-IsRowOf fresh target d
  healed-IsRowOf (err e, d) fresh target = tt

  settle-IsRowOf :
      (id : ℕ) (d : Db) (x : Result UserRow × Db)
      → IsRowOf p who email id x
      → IsRowOf p who email id (settle d x)
  unfolding IsRowOf
  settle-IsRowOf id d (ok u, d') h = h
  settle-IsRowOf id d (err e, d') h = tt

  abbrev target : ℕ → Db → ℕ
  target fresh d =
      key_of fresh
        (survivor (find (has_identity p who.uid) d.users) (find (has_email email) d.users))

  login_tx-IsRowOf :
      (fresh : ℕ) (d : Db)
      → IsRowOf p who email (target fresh d) (tx (login_tx p who email admin fresh) d)
  unfolding login_tx
  login_tx-IsRowOf fresh d = settle-IsRowOf (target fresh d) d _ (
      healed-IsRowOf
        (heal p who email admin
          (duplicates (find (has_identity p who.uid) d.users) (find (has_email email) d.users)) d)
        fresh (survivor (find (has_identity p who.uid) d.users) (find (has_email email) d.users)))

  target-IsTarget : (fresh : ℕ) (d : Db) → IsTarget p who email fresh d (target fresh d)
  target-IsTarget fresh d =
      go (find (has_identity p who.uid) d.users) (find (has_email email) d.users) refl refl
    where
      go :
          (i e : Option UserRow)
          → find (has_identity p who.uid) d.users ≡ i
          → find (has_email email) d.users ≡ e
          → IsTarget p who email fresh d (target fresh d)
      go i (some v) h k = inl (v, k, rw (h, k) refl)
      go (some v) none h k = inr (inl (v, k, h, rw (h, k) refl))
      go none none h k = inr (inr (k, h, rw (h, k) refl))

module _ (sdk : Sdk) (admin_email : Option Text) (token : Text) (fresh : ℕ) (d : Db) where
  abbrev pub sign_in : Bool → Result UserRow × Db
  sign_in app =
      login_with_id_token (resolve_email sdk app) admin_email (verify_id_token sdk app) token fresh
        d

  -- The email of a token, or the one that the SDK finds for its user.
  abbrev pub email_for : Decoded → Text
  email_for who = email_of who (resolve_email sdk true who.uid)

  login_as-IsAccountOf :
      (who : Decoded) (p : Option OauthProvider)
      → provider_of who.sign_in_provider ≡ p
      → IsAccountOf who
          (email_for who)
          fresh
          d
          (login_as (resolve_email sdk true) admin_email who fresh p d)
  unfolding IsAccountOf IsRowOf
  login_as-IsAccountOf who none q = tt
  login_as-IsAccountOf who (some p) q =
      go (tx (login_tx p who (email_for who) admin fresh) d)
        (login_tx-IsRowOf p who (email_for who) admin fresh d)
    where
      admin : Bool
      admin =
          text_eq (to_lower_case (email_for who)) (to_lower_case (trim (text_or_empty admin_email)))

      go :
          (x : Result UserRow × Db)
          → IsRowOf p who (email_for who) (target p who (email_for who) admin fresh d) x
          → IsAccountOf who (email_for who) fresh d x
      go (ok v, d') h = record {
        provider = q ∙ ap some (sym h.provider);
        uid = h.uid;
        address = h.address;
        account =
            subst (λ o. IsTarget o who (email_for who) fresh d v.id) (sym h.provider)
              (subst (λ i. IsTarget p who (email_for who) fresh d i) (sym h.account)
                (target-IsTarget p who (email_for who) admin fresh d));
      }
      go (err x, d') h = tt

  -- A sign-in is answered with a 401 and changes nothing where Firebase is not set up, or its SDK
  -- does not verify the token. Else a user who is returned has the provider and the uid that the
  -- token is verified for, and the email, and is the account that had this email before; if there
  -- was none, the account that had this provider and uid; and only if there was none either, new.
  pub sign_in_verified :
      (app : Bool)
      → ((app ≡ false) × (sign_in app ≡ (err (not_configured sdk), d)))
        ⊎ ((x : Error) × (sdk.verify token ≡ err x) × (sign_in app ≡ (err (invalid_token sdk), d)))
        ⊎ ((who : Decoded) × (sdk.verify token ≡ ok who)
            × IsAccountOf who (email_for who) fresh d (sign_in app))
  unfolding login_with_id_token verify_id_token
  sign_in_verified false = inl (refl, refl)
  sign_in_verified true = go (sdk.verify token)
    where
      go :
          (r : Result Decoded)
          → ((true ≡ false)
              × (login_result (resolve_email sdk true) admin_email fresh (checked sdk r) d
                  ≡ (err (not_configured sdk), d)))
            ⊎ ((x : Error) × (r ≡ err x)
                × (login_result (resolve_email sdk true) admin_email fresh (checked sdk r) d
                    ≡ (err (invalid_token sdk), d)))
            ⊎ ((who : Decoded) × (r ≡ ok who)
                × IsAccountOf who
                    (email_for who)
                    fresh
                    d
                    (login_result (resolve_email sdk true) admin_email fresh (checked sdk r) d))
      go (err x) = inr (inl (x, refl, refl))
      go (ok who) =
          inr (inr (who, refl, login_as-IsAccountOf who (provider_of who.sign_in_provider) refl))
