-- ===== src/Auth/Accounts.antt =====
-- The upsert of a sign-in (`loginWithIdToken` of src/auth/auth.service.ts) and the invariant of the
-- database.
use micro_manus_services.Base.{
  ℕ, ◌≡◌, refl, sym, ◌∙◌, inl, inr, Bool, true, false, ◌||◌, Option, none, some, List, [], ◌∷◌,
  arith, ◌==◌, Bool-cases, Text, find, any, update_where, All,
}
use micro_manus_services.Base.Int.{pos, ◌≤ℤ◌, int_laws}
use micro_manus_services.Db.{Db, UserRow, LedgerRow, OauthProvider}
use micro_manus_services.Db.Statements.{is_user, has_user}
use micro_manus_services.Ledger.{balance, contains, user_ids, IsBalanced}
use micro_manus_services.Ledger.Balance.{map-update_where}
use micro_manus_services.Ledger.Sound.{IsSound}
use micro_manus_services.Auth.Login.{
  Decoded, has_identity, has_email, returned, refreshed, taken_by, new_user, update_user,
  insert_user, upsert,
}
use micro_manus_services.Auth.Merge.{SoundIfOk}

-- An update that leaves keys and credits alone.
module _ (p : UserRow → Bool) (f : UserRow → UserRow) (same_id : (u : UserRow) → (f u).id ≡ u.id)
    (same_credits : (u : UserRow) → (f u).credits ≡ u.credits) where
  has_user-same : (id : ℕ) (us : List UserRow) → has_user id (update_where p f us) ≡ has_user id us
  has_user-same id [] = refl
  has_user-same id (u ∷ us) = ground (arith, same_id u, has_user-same id us)

  sums-same :
      (us : List UserRow) (es : List LedgerRow)
      → All (λ u. u.credits ≡ balance u.id es) us
      → All (λ u. u.credits ≡ balance u.id es) (update_where p f us)
  sums-same [] es h = tt
  sums-same (u ∷ us) es h = ground (arith, same_id u, same_credits u, sums-same us es h.1)

  nonneg-same :
      (us : List UserRow)
      → All (λ u. pos 0 ≤ℤ u.credits) us
      → All (λ u. pos 0 ≤ℤ u.credits) (update_where p f us)
  nonneg-same [] h = tt
  nonneg-same (u ∷ us) h = ground (arith, same_credits u, nonneg-same us h.1)

  owned-same :
      (us : List UserRow) (es : List LedgerRow)
      → All (λ e. has_user e.user_id us ≡ true) es
      → All (λ e. has_user e.user_id (update_where p f us) ≡ true) es
  owned-same us [] h = tt
  owned-same us (e ∷ es) h = (has_user-same e.user_id us ∙ h.0, owned-same us es h.1)

  same-IsBalanced :
      (us : List UserRow) (es : List LedgerRow)
      → IsBalanced us es
      → IsBalanced (update_where p f us) es
  same-IsBalanced us es v = record {
    keys = rw (map-update_where (λ u. u.id) p f same_id us) v.keys;
    sums = sums-same us es v.sums;
    nonneg = nonneg-same us v.nonneg;
    owned = owned-same us es v.owned;
  }

-- A key that no row has owns no ledger row.
balance-absent :
    (id : ℕ) (us : List UserRow) (es : List LedgerRow)
    → has_user id us ≡ false
    → All (λ e. has_user e.user_id us ≡ true) es
    → balance id es ≡ pos 0
balance-absent id us [] h o = refl
balance-absent id us (e ∷ es) h o = elim (Bool-cases (e.user_id == id)) [
  | inl same ↦ absurd (ground (arith, o.0))
  | inr differs ↦ rw differs (balance-absent id us es h o.1)
]

owned-grow :
    (u : UserRow) (us : List UserRow) (es : List LedgerRow)
    → All (λ e. has_user e.user_id us ≡ true) es
    → All (λ e. has_user e.user_id (u ∷ us) ≡ true) es
owned-grow u us [] h = tt
owned-grow u us (e ∷ es) h = (ground (arith, h.0), owned-grow u us es h.1)

contains-absent :
    (id : ℕ) (us : List UserRow) → has_user id us ≡ false → contains id (user_ids us) ≡ false
contains-absent id [] h = refl
contains-absent id (u ∷ us) h = ground (arith, contains-absent id us)

grown-IsBalanced :
    (u : UserRow) (us : List UserRow) (es : List LedgerRow)
    → u.credits ≡ pos 0
    → has_user u.id us ≡ false
    → IsBalanced us es
    → IsBalanced (u ∷ us) es
grown-IsBalanced u us es c new v = record {
  keys = (contains-absent u.id us new, v.keys);
  sums = (c ∙ sym (balance-absent u.id us es new v.owned), v.sums);
  nonneg = (rw c (omega int_laws), v.nonneg);
  owned = owned-grow u us es v.owned;
}

pub find-has_user :
    (p : UserRow → Bool) (us : List UserRow) (u : UserRow)
    → find p us ≡ some u
    → has_user u.id us ≡ true
find-has_user p [] u h = absurd cc
find-has_user p (x ∷ us) u h = ground (arith, find-has_user p us u)

module _ (provider : OauthProvider) (who : Decoded) (email : Text) (is_admin : Bool) where
  update_user-SoundIfOk :
      (id : ℕ) (d : Db) → IsSound d → SoundIfOk (update_user provider who email is_admin id d)
  unfolding update_user
  update_user-SoundIfOk id d v =
      elim (Bool-cases (any (taken_by provider who email is_admin id) d.users)) [
        | inl taken ↦ rw taken tt
        | inr free ↦ rw free (
            stored (
              find (is_user id)
                (update_where (is_user id) (refreshed provider who email is_admin) d.users)))
      ]
    where
      stored :
          (o : Option UserRow)
          → SoundIfOk (
              returned provider who email is_admin o (record d {
                users = update_where (is_user id) (refreshed provider who email is_admin) d.users;
              }))
      stored none = tt
      stored (some u) = record {
        balanced =
            same-IsBalanced (is_user id) (refreshed provider who email is_admin) (λ u. refl)
              (λ u. refl) d.users d.credit_ledger v.balanced;
        charged = v.charged;
        exclusive = v.exclusive;
      }

  insert_user-SoundIfOk :
      (id : ℕ) (d : Db) → IsSound d → SoundIfOk (insert_user provider who email is_admin id d)
  unfolding insert_user
  insert_user-SoundIfOk id d v = elim (Bool-cases (any (is_user id) d.users)) [
    | inl known ↦ rw known tt
    | inr new ↦
        elim (Bool-cases
          (any (λ u. has_email email u || has_identity provider who.uid u) d.users)) [
            | inl taken ↦ rw new (rw taken tt)
            | inr free ↦ rw new (
                rw free (record {
                  balanced =
                      grown-IsBalanced (new_user provider who email is_admin id) d.users
                        d.credit_ledger refl new v.balanced;
                  charged = v.charged;
                  exclusive = v.exclusive;
                }))
          ]
  ]

  pub upsert-SoundIfOk :
      (fresh : ℕ) (o : Option ℕ) (d : Db)
      → IsSound d
      → SoundIfOk (upsert provider who email is_admin fresh o d)
  upsert-SoundIfOk fresh none d v = insert_user-SoundIfOk fresh d v
  upsert-SoundIfOk fresh (some id) d v = update_user-SoundIfOk id d v
