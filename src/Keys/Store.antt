-- ===== src/Keys/Store.antt =====
-- `addKey`, `listKeys` and `deleteKey` of src/keys/keys.service.ts, and `add` of
-- src/keys/keys.controller.ts. Encryption (src/keys/crypto.ts, over the platform's) is a parameter.
use micro_manus_services.Base.{
  ℕ, ◌-◌, ⊤, Bool, not, ◌&&◌, Option, none, some, List, ◌∷◌, ◌++◌, ◌==◌, if◌then◌else◌, Text, codes,
  length, take, drop, keep, find, any, reverse, map,
}
use micro_manus_services.Base.Chars.{trim}
use micro_manus_services.Db.{
  Query, Result, ok, err, http, pg, SqlState, KeyProvider, ApiKeyRow, throw, ◌>>=◌,
}
use micro_manus_services.Db.Statements.{has_user}
use micro_manus_services.Llm.Service.{key_for}
use micro_manus_services.Keys.Probe.{Fetch, ProbeResult, probe}

-- `hint` of src/keys/crypto.ts: the first three characters, an ellipsis and the last four.
abbrev pub hint : Text → Text
hint key = take 3 key ++ 0x2026 ∷ drop (length key - 4) key

abbrev pub key_row : ℕ → ℕ → Text → Text → ProbeResult → ApiKeyRow
key_row id user ciphertext key p = record {
  id = id;
  user_id = user;
  provider = p.provider;
  base_url = p.base_url;
  key_ciphertext = ciphertext;
  key_hint = hint key;
  models = p.models;
}

-- `DO UPDATE SET …`: the row keeps its key and owner.
abbrev pub replace_key : Text → Text → ProbeResult → ApiKeyRow → ApiKeyRow
replace_key ciphertext key p k = record k {
  base_url = p.base_url;
  key_ciphertext = ciphertext;
  key_hint = hint key;
  models = p.models;
}

-- The row of the user and provider is replaced, and with `created_at = now()` it becomes the newest;
-- by the table's UNIQUE constraint there is no second one.
abbrev pub upsert_row : ℕ → ℕ → Text → Text → ProbeResult → Option ApiKeyRow → Query ℕ
upsert_row fresh user ciphertext key p (some k) d = (
  ok k.id,
  record d {
    api_keys =
        replace_key ciphertext key p k ∷ keep (λ o. not (key_for user p.provider o)) d.api_keys;
  },
)
upsert_row fresh user ciphertext key p none d =
    if has_user user d.users
    then (ok fresh, record d { api_keys = key_row fresh user ciphertext key p ∷ d.api_keys })
    else (err (pg SqlState.foreign_key_violation), d)

-- INSERT INTO api_keys … ON CONFLICT (user_id, provider) DO UPDATE …, with its fresh key.
unfoldable pub upsert_key : ℕ → ℕ → Text → Text → ProbeResult → Query ℕ
upsert_key fresh user ciphertext key p d =
    upsert_row fresh user ciphertext key p (find (key_for user p.provider) d.api_keys) d

-- What `addKey` answers.
pub record AddedKey : Type 0 where
  pub id : ℕ
  pub provider : KeyProvider
  pub key_hint : Text
  pub models : List Text

module _ (fetch : Fetch) (encrypt : Text → Text) where
  abbrev pub added : Text → ProbeResult → ℕ → AddedKey
  added key p id = record { id = id; provider = p.provider; key_hint = hint key; models = p.models }

  abbrev pub store_key : ℕ → ℕ → Text → Result ProbeResult → Query AddedKey
  store_key fresh user key (err e) = throw e
  store_key fresh user key (ok p) =
      upsert_key fresh user (encrypt key) key p >>= λ id d. (ok (added key p id), d)

  unfoldable pub add_key : ℕ → ℕ → Text → Option KeyProvider → Option Text → Query AddedKey
  unfolding probe upsert_key
  add_key fresh user key provider base = store_key fresh user key (probe fetch key provider base)

abbrev pub is_key : ℕ → ℕ → ApiKeyRow → Bool
is_key user id k = k.id == id && k.user_id == user

unfoldable pub delete_key : ℕ → ℕ → Query ⊤
delete_key user id d =
    if any (is_key user id) d.api_keys
    then (ok tt, record d { api_keys = keep (λ k. not (is_key user id k)) d.api_keys })
    else (err (http 404 (codes "Not Found")), d)

-- What `listKeys` shows of a key; the ciphertext is not among it.
pub record ListedKey : Type 0 where
  pub id : ℕ
  pub provider : KeyProvider
  pub key_hint : Text
  pub models : List Text

abbrev listed : ApiKeyRow → ListedKey
listed k = record { id = k.id; provider = k.provider; key_hint = k.key_hint; models = k.models }

-- `ORDER BY created_at`: the oldest key first.
unfoldable pub list_keys : ℕ → Query (List ListedKey)
list_keys user d = (ok (reverse (map listed (keep (λ k. k.user_id == user) d.api_keys))), d)

-- `AddKeyDto`; the checks of its fields are the framework's.
pub record AddKey : Type 0 where
  pub api_key : Text
  pub provider : Option KeyProvider
  pub base_url : Option Text

-- `KeysController.add`
unfoldable pub add : (fetch : Fetch) (encrypt : Text → Text) → ℕ → ℕ → AddKey → Query AddedKey
unfolding add_key trim
add fetch encrypt fresh user dto =
    add_key fetch encrypt fresh user (trim dto.api_key) dto.provider dto.base_url
