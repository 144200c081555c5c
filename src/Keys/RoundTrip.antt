-- ===== src/Keys/RoundTrip.antt =====
-- A key that is added (src/keys/keys.service.ts) and then looked up for a run
-- (src/llm/llm.service.ts).
use micro_manus_services.Base.{
  ℕ, ◌≡◌, refl, ap, inl, inr, true, Option, none, some, arith, ◌==◌, Bool-cases, Text, find,
}
use mathlib.Core.Path.{subst}
use micro_manus_services.Db.{Db, Result, ok, err, KeyProvider, provider_eq, ApiKeyRow, then_run}
use micro_manus_services.Db.Statements.{has_user}
use micro_manus_services.Models.{ModelEntry}
use micro_manus_services.Models.Offers.{provider_eq_sound}
use micro_manus_services.Llm.Service.{key_for, or_else, open_key, resolve_key, pick_key}
use micro_manus_services.Keys.Probe.{Fetch, ProbeResult, probe, fetch_models}
use micro_manus_services.Keys.Accepted.{Accepted, probe-Accepted, injected}
use micro_manus_services.Keys.Unique.{find-key_for}
use micro_manus_services.Keys.Store.{upsert_row, add_key, upsert_key, store_key, AddedKey, added}

eq_refl : (n : ℕ) → (n == n) ≡ true
eq_refl n = ground arith

pub provider_eq_refl : (p : KeyProvider) → provider_eq p p ≡ true
provider_eq_refl KeyProvider.openai = refl
provider_eq_refl KeyProvider.anthropic = refl
provider_eq_refl KeyProvider.moonshot = refl
provider_eq_refl KeyProvider.groq = refl
provider_eq_refl KeyProvider.openrouter = refl

-- A row that holds the key, for the user and provider.
Holds : ℕ → Text → ProbeResult → Option ApiKeyRow → Type 0
Holds user ciphertext p none = ⊥
Holds user ciphertext p (some k) =
    (k.provider ≡ p.provider) × (k.base_url ≡ p.base_url) × (k.key_ciphertext ≡ ciphertext)

module _ (fresh user : ℕ) (ciphertext key : Text) (p : ProbeResult) where
  upsert_key-Holds :
      (d : Db) (id : ℕ)
      → (upsert_key fresh user ciphertext key p d).0 ≡ ok id
      → Holds user ciphertext p
          (find (key_for user p.provider) (upsert_key fresh user ciphertext key p d).1.api_keys)
  unfolding upsert_key
  upsert_key-Holds d id = go (find (key_for user p.provider) d.api_keys) refl
    where
      go :
          (o : Option ApiKeyRow)
          → find (key_for user p.provider) d.api_keys ≡ o
          → (upsert_row fresh user ciphertext key p o d).0 ≡ ok id
          → Holds user ciphertext p (
              find
                (key_for user p.provider)
                (upsert_row fresh user ciphertext key p o d).1.api_keys)
      go (some k) q h =
          let hit = find-key_for user p.provider d.api_keys k q in
          rw hit (
            unfold Holds in
            (provider_eq_sound k.provider p.provider (ground (arith, hit)), refl, refl))
      go none q h = elim (Bool-cases (has_user user d.users)) [
        | inl known ↦ rw known (
            rw (eq_refl user)
              (rw (provider_eq_refl p.provider) (unfold Holds in (refl, refl, refl))))
        | inr absent ↦ absurd (ground (arith, h, absent))
      ]

module _ (decrypt : Text → Result Text) (user : ℕ) (ciphertext key : Text) (p : ProbeResult) where
  resolve-Holds :
      (m : ModelEntry) (d : Db)
      → m.vendor ≡ p.provider
      → decrypt ciphertext ≡ ok key
      → Holds user ciphertext p (find (key_for user p.provider) d.api_keys)
      → (resolve_key decrypt user m d).0
        ≡ ok (record { provider = p.provider; base_url = p.base_url; api_key = key })
  unfolding resolve_key pick_key Holds
  resolve-Holds m d v plain h = rw v (by_row (find (key_for user p.provider) d.api_keys) h)
    where
      by_row :
          (o : Option ApiKeyRow)
          → Holds user ciphertext p o
          → open_key decrypt m (or_else o (find (key_for user KeyProvider.openrouter) d.api_keys))
            ≡ ok (record { provider = p.provider; base_url = p.base_url; api_key = key })
      by_row none h = absurd h
      by_row (some k) h = rw h.2 (rw plain (rw h.0 (rw h.1 refl)))

module _ (fetch : Fetch) (encrypt : Text → Text) (decrypt : Text → Result Text) (fresh user : ℕ)
    (key : Text) (m : ModelEntry) (d : Db) where
  -- A run finds the key in a database, under the provider and URL of what was added.
  Found : Db → AddedKey → Type 0
  Found d' a =
      (url : Text) × ((resolve_key decrypt user m d').0
        ≡ ok (record { provider = a.provider; base_url = url; api_key = key }))
      × (fetch_models fetch a.provider url key ≡ ok a.models)

  row-Found :
      (a : AddedKey) (p : ProbeResult) (x : Result ℕ × Db)
      → decrypt (encrypt key) ≡ ok key
      → Accepted fetch key p
      → upsert_key fresh user (encrypt key) key p d ≡ x
      → (then_run (λ id d. (ok (added fetch encrypt key p id), d)) x).0 ≡ ok a
      → m.vendor ≡ a.provider
      → Found (then_run (λ id d. (ok (added fetch encrypt key p id), d)) x).1 a
  unfolding Found
  row-Found a p (err y, d') plain fits e h = cc
  row-Found a p (ok id, d') plain fits e h =
      subst (λ b. m.vendor ≡ b.provider → Found d' b) (injected h)
        (λ v. (
          p.base_url,
          resolve-Holds decrypt user (encrypt key) key p m d' v plain (
              subst (λ x. Holds user (encrypt key) p (find (key_for user p.provider) x.1.api_keys))
                e (upsert_key-Holds fresh user (encrypt key) key p d id (ap (λ x. x.0) e))),
          fits,
        ))

  store-Found :
      (a : AddedKey)
      → decrypt (encrypt key) ≡ ok key
      → (r : Result ProbeResult) → ((p : ProbeResult) → r ≡ ok p → Accepted fetch key p)
      → (store_key fetch encrypt fresh user key r d).0 ≡ ok a
      → m.vendor ≡ a.provider
      → Found (store_key fetch encrypt fresh user key r d).1 a
  store-Found a plain (err x) fits h v = cc
  store-Found a plain (ok p) fits h v =
      row-Found a p (upsert_key fresh user (encrypt key) key p d) plain (fits p refl) refl h v

-- Where decryption undoes the encryption of a key, adding the key makes it the key that a run of a
-- model of its vendor gets, in plain text and with a URL at which the provider has accepted it.
pub add_key-resolve_key :
    (fetch : Fetch) (encrypt : Text → Text) (decrypt : Text → Result Text) (fresh user : ℕ)
    (key : Text) (provider : Option KeyProvider) (base : Option Text) (m : ModelEntry) (d : Db)
    (a : AddedKey)
    → decrypt (encrypt key) ≡ ok key
    → (add_key fetch encrypt fresh user key provider base d).0 ≡ ok a
    → m.vendor ≡ a.provider
    → (url : Text) × ((resolve_key decrypt user m
          (add_key fetch encrypt fresh user key provider base d).1).0
        ≡ ok (record { provider = a.provider; base_url = url; api_key = key }))
      × (fetch_models fetch a.provider url key ≡ ok a.models)
unfolding add_key Found
add_key-resolve_key fetch encrypt decrypt fresh user key provider base m d a plain h v =
    store-Found fetch encrypt decrypt fresh user key m d a plain (probe fetch key provider base)
      (λ p q. probe-Accepted fetch key provider base p q) h v
