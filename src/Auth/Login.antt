-- ===== src/Auth/Login.antt =====
-- `loginWithIdToken` and `mergeUsers` of src/auth/auth.service.ts. Verifying the token and asking
-- for the email, which Auth/Firebase models, are parameters.
use micro_manus_services.Base.{
  ℕ, ⊤, Bool, true, false, not, ◌&&◌, ◌||◌, Option, none, some, List, [], ◌∷◌, ◌++◌, map, ◌==◌,
  if◌then◌else◌, Text, codes, keep, find, any, update_where, text_eq,
}
use micro_manus_services.Base.Chars.{trim, to_lower_case}
use micro_manus_services.Base.Int.{ℤ, pos}
use micro_manus_services.Db.{
  Db, Query, Result, ok, err, http, pg, SqlState, Role, OauthProvider, oauth_eq, KeyProvider,
  provider_eq, UserRow, ApiKeyRow, ThreadRow, RunRow, UsageRow, UploadRow, LedgerRow, RedemptionRow,
  tx, pure, throw, ◌>>=◌, ◌>>◌,
}
use micro_manus_services.Db.Statements.{is_user, update_credits}

-- A verified token.
pub record Decoded : Type 0 where
  pub uid : Text
  pub sign_in_provider : Option Text
  pub email : Option Text
  pub name : Option Text
  pub picture : Option Text

abbrev moved : ℕ → ℕ → ℕ → ℕ
moved winner loser user = if user == loser then winner else user

abbrev move_thread : ℕ → ℕ → ThreadRow → ThreadRow
move_thread winner loser t = record t { user_id = moved winner loser t.user_id }

abbrev move_usage : ℕ → ℕ → UsageRow → UsageRow
move_usage winner loser u = record u { user_id = moved winner loser u.user_id }

abbrev move_upload : ℕ → ℕ → UploadRow → UploadRow
move_upload winner loser u = record u { user_id = moved winner loser u.user_id }

abbrev pub move_run : ℕ → ℕ → RunRow → RunRow
move_run winner loser r = record r { user_id = moved winner loser r.user_id }

abbrev pub move_ledger : ℕ → ℕ → LedgerRow → LedgerRow
move_ledger winner loser e = record e { user_id = moved winner loser e.user_id }

abbrev pub has_key : ℕ → KeyProvider → List ApiKeyRow → Bool
has_key user p ks = any (λ k. k.user_id == user && provider_eq k.provider p) ks

abbrev has_code : ℕ → Text → List RedemptionRow → Bool
has_code user code rs = any (λ r. r.user_id == user && text_eq r.code code) rs

abbrev pub move_key : ℕ → ℕ → List ApiKeyRow → ApiKeyRow → ApiKeyRow
move_key winner loser ks k =
    if k.user_id == loser && not (has_key winner k.provider ks)
    then record k { user_id = winner }
    else k

abbrev pub move_redemption : ℕ → ℕ → List RedemptionRow → RedemptionRow → RedemptionRow
move_redemption winner loser rs r =
    if r.user_id == loser && not (has_code winner r.code rs)
    then record r { user_id = winner }
    else r

-- The reassignments of `mergeUsers`.
abbrev pub reassign : ℕ → ℕ → Db → Db
reassign winner loser d = record d {
  threads = map (move_thread winner loser) d.threads;
  runs = map (move_run winner loser) d.runs;
  usage_events = map (move_usage winner loser) d.usage_events;
  uploads = map (move_upload winner loser) d.uploads;
  credit_ledger = map (move_ledger winner loser) d.credit_ledger;
  api_keys = map (move_key winner loser d.api_keys) d.api_keys;
  redemptions = map (move_redemption winner loser d.redemptions) d.redemptions;
}

-- `DELETE FROM users WHERE id = $1`; by `ON DELETE CASCADE` the keys and redemptions that the
-- winner had too go with it, and the other tables have no row of it left.
abbrev pub delete_user : ℕ → Db → Db
delete_user loser d = record d {
  users = keep (λ u. not (u.id == loser)) d.users;
  api_keys = keep (λ k. not (k.user_id == loser)) d.api_keys;
  redemptions = keep (λ r. not (r.user_id == loser)) d.redemptions;
}

abbrev pub carry_credits : Option UserRow → ℕ → Query (List ℤ)
carry_credits none winner d = (err (pg SqlState.not_null_violation), d)
carry_credits (some u) winner d = update_credits (is_user winner) u.credits d

-- `mergeUsers`
unfoldable pub merge_users : ℕ → ℕ → Query ⊤
merge_users loser winner = do
  λ d. (ok tt, reassign winner loser d)
  carried ← λ d. carry_credits (find (is_user loser) d.users) winner d
  λ d. (ok tt, delete_user loser d)

abbrev pub has_identity : OauthProvider → Text → UserRow → Bool
has_identity p uid u = oauth_eq u.oauth_provider p && text_eq u.oauth_id uid

abbrev pub has_email : Text → UserRow → Bool
has_email email u = text_eq u.email email

-- Both ids, if both rows are there and are not one row.
abbrev pub duplicates : Option UserRow → Option UserRow → Option (ℕ × ℕ)
duplicates none e = none
duplicates (some i) none = none
duplicates (some i) (some e) = if i.id == e.id then none else some (i.id, e.id)

abbrev pub survivor : Option UserRow → Option UserRow → Option ℕ
survivor i (some e) = some e.id
survivor none none = none
survivor (some i) none = some i.id

abbrev coalesce : Option Text → Option Text → Option Text
coalesce none old = old
coalesce (some t) old = some t

abbrev promoted : Bool → Role → Role
promoted true r = Role.admin
promoted false r = r

abbrev pub sign_up_role : Bool → Role
sign_up_role true = Role.admin
sign_up_role false = Role.member

module _ (provider : OauthProvider) (who : Decoded) (email : Text) (is_admin : Bool) where
  abbrev pub refreshed : UserRow → UserRow
  refreshed u = record u {
    email = email;
    name = coalesce who.name u.name;
    image = coalesce who.picture u.image;
    oauth_provider = provider;
    oauth_id = who.uid;
    role = promoted is_admin u.role;
  }

  -- Another row that has the email or the identity.
  abbrev pub taken_by : ℕ → UserRow → Bool
  taken_by id u = not (u.id == id) && (has_email email u || has_identity provider who.uid u)

  abbrev pub returned : Option UserRow → Query UserRow
  returned none d = (err (pg SqlState.not_null_violation), d)
  returned (some u) d = (ok u, d)

  -- `UPDATE users …`, for the surviving row.
  unfoldable pub update_user : ℕ → Query UserRow
  update_user id d =
      if any (taken_by id) d.users
      then (err (pg SqlState.unique_violation), d)
      else returned (find (is_user id) (update_where (is_user id) refreshed d.users))
          (record d { users = update_where (is_user id) refreshed d.users })

  abbrev pub new_user : ℕ → UserRow
  new_user id = record {
    id = id;
    email = email;
    name = who.name;
    image = who.picture;
    oauth_provider = provider;
    oauth_id = who.uid;
    credits = pos 0;
    role = sign_up_role is_admin;
  }

  -- `INSERT INTO users …`, with its fresh key.
  unfoldable pub insert_user : ℕ → Query UserRow
  insert_user id d =
      if any (is_user id) d.users
        || any (λ u. has_email email u || has_identity provider who.uid u) d.users
      then (err (pg SqlState.unique_violation), d)
      else (ok (new_user id), record d { users = new_user id ∷ d.users })

  abbrev pub heal : Option (ℕ × ℕ) → Query ⊤
  heal none = pure tt
  heal (some (loser, winner)) = merge_users loser winner

  abbrev pub upsert : ℕ → Option ℕ → Query UserRow
  upsert fresh none = insert_user fresh
  upsert fresh (some id) = update_user id

  -- The transaction of `loginWithIdToken`.
  unfoldable pub login_tx : ℕ → Query UserRow
  unfolding merge_users update_user insert_user
  login_tx fresh d =
      let by_identity = find (has_identity provider who.uid) d.users in
      let by_email = find (has_email email) d.users in
      (heal (duplicates by_identity by_email) >> upsert fresh (survivor by_identity by_email)) d

-- `PROVIDER_MAP`
abbrev pub provider_of : Option Text → Option OauthProvider
provider_of none = none
provider_of (some p) =
    if text_eq p (codes "google.com")
    then some OauthProvider.google
    else if text_eq p (codes "github.com")
    then some OauthProvider.github
    else none

abbrev pub email_of : Decoded → Option Text → Text
email_of who resolved = elim who.email [
  | some e ↦ e
  | none ↦ elim resolved [ some e ↦ e | none ↦ who.uid ++ codes "@users.noreply.firebase" ]
]

abbrev pub text_or_empty : Option Text → Text
text_or_empty none = []
text_or_empty (some t) = t

module _ (resolve_email : Text → Option Text) (admin_email : Option Text) where
  abbrev pub login_as : Decoded → ℕ → Option OauthProvider → Query UserRow
  login_as who fresh none = throw (http 401 (codes "Unsupported sign-in provider"))
  login_as who fresh (some p) =
      let email = email_of who (resolve_email who.uid) in
      tx (
        login_tx p who email
          (text_eq (to_lower_case email) (to_lower_case (trim (text_or_empty admin_email)))) fresh)

  abbrev pub login_result : ℕ → Result Decoded → Query UserRow
  login_result fresh (err e) = throw e
  login_result fresh (ok who) = login_as who fresh (provider_of who.sign_in_provider)

  unfoldable pub login_with_id_token : (Text → Result Decoded) → Text → ℕ → Query UserRow
  unfolding login_tx
  login_with_id_token verify token fresh = login_result fresh (verify token)
