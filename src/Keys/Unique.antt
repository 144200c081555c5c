-- ===== src/Keys/Unique.antt =====
-- UNIQUE (user_id, provider) of api_keys: src/keys/keys.service.ts.
use micro_manus_services.Base.{
  ℕ, ◌≡◌, refl, sym, inl, inr, Bool, false, Option, none, some, List, [], ◌∷◌, arith, Bool-cases,
  Text, keep, any, find, not, ==_iff, true,
}
use mathlib.Core.Path.{subst}
use micro_manus_services.Db.{Db, Result, ok, err, ApiKeyRow, KeyProvider, then_run}
use micro_manus_services.Db.Statements.{has_user}
use micro_manus_services.Llm.Service.{key_for}
use micro_manus_services.Keys.Probe.{Fetch, ProbeResult, probe}
use micro_manus_services.Models.Offers.{provider_eq_sound}
use micro_manus_services.Keys.Store.{
  upsert_row, store_key, upsert_key, is_key, delete_key, added, add_key,
}

-- No two keys are of one user and one provider.
unfoldable pub IsKeyed : List ApiKeyRow → Type 0
IsKeyed [] = Unit
IsKeyed (k ∷ ks) = (any (key_for k.user_id k.provider) ks ≡ false) × IsKeyed ks

any-keep :
    (p q : ApiKeyRow → Bool) (ks : List ApiKeyRow) → any p ks ≡ false → any p (keep q ks) ≡ false
any-keep p q [] h = refl
any-keep p q (k ∷ ks) h = ground (arith, any-keep p q ks)

keep-IsKeyed : (q : ApiKeyRow → Bool) (ks : List ApiKeyRow) → IsKeyed ks → IsKeyed (keep q ks)
unfolding IsKeyed
keep-IsKeyed q [] h = tt
keep-IsKeyed q (k ∷ ks) h = elim (Bool-cases (q k)) [
  | inl stays ↦ rw stays (any-keep (key_for k.user_id k.provider) q ks h.0, keep-IsKeyed q ks h.1)
  | inr goes ↦ rw goes (keep-IsKeyed q ks h.1)
]

pub find-key_for :
    (user : ℕ) (p : KeyProvider) (ks : List ApiKeyRow) (k : ApiKeyRow)
    → find (key_for user p) ks ≡ some k
    → key_for user p k ≡ true
find-key_for user p [] k h = absurd cc
find-key_for user p (j ∷ ks) k h = elim (Bool-cases (key_for user p j)) [
  | inl hit ↦ subst (λ i. key_for user p i ≡ true) (first hit h) hit
  | inr miss ↦ find-key_for user p ks k (rest miss h)
]
  where
    first : key_for user p j ≡ true → find (key_for user p) (j ∷ ks) ≡ some k → j ≡ k
    first hit h = ground (arith, h, hit)

    rest :
        key_for user p j ≡ false
        → find (key_for user p) (j ∷ ks) ≡ some k
        → find (key_for user p) ks ≡ some k
    rest miss h = ground (arith, h, miss)

none-of :
    (user : ℕ) (p : KeyProvider) (ks : List ApiKeyRow)
    → any (key_for user p) (keep (λ o. not (key_for user p o)) ks) ≡ false
none-of user p [] = refl
none-of user p (k ∷ ks) = elim (Bool-cases (key_for user p k)) [
  | inl hit ↦ rw hit (none-of user p ks)
  | inr miss ↦ rw miss (rw miss (none-of user p ks))
]

find-none :
    (user : ℕ) (p : KeyProvider) (ks : List ApiKeyRow)
    → find (key_for user p) ks ≡ none
    → any (key_for user p) ks ≡ false
find-none user p [] h = refl
find-none user p (k ∷ ks) h = elim (Bool-cases (key_for user p k)) [
  | inl hit ↦ absurd (ground (arith, h, hit))
  | inr miss ↦ rw miss (find-none user p ks (ground (arith, h, miss)))
]

upsert_key-IsKeyed :
    (fresh user : ℕ) (cipher key : Text) (p : ProbeResult) (d : Db)
    → IsKeyed d.api_keys
    → IsKeyed (upsert_key fresh user cipher key p d).1.api_keys
unfolding upsert_key IsKeyed
upsert_key-IsKeyed fresh user cipher key p d h = go (find (key_for user p.provider) d.api_keys) refl
  where
    go :
        (o : Option ApiKeyRow)
        → find (key_for user p.provider) d.api_keys ≡ o
        → IsKeyed (upsert_row fresh user cipher key p o d).1.api_keys
    go (some k) q =
        let hit = find-key_for user p.provider d.api_keys k q in
        (
          subst
              (λ u.
                any (key_for u k.provider) (keep (λ o. not (key_for user p.provider o)) d.api_keys)
                ≡ false)
              (sym ((==_iff k.user_id user).0 (ground (arith, hit))))
              (subst
                (λ v.
                  any (key_for user v) (keep (λ o. not (key_for user p.provider o)) d.api_keys)
                  ≡ false)
                (sym (provider_eq_sound k.provider p.provider (ground (arith, hit))))
                (none-of user p.provider d.api_keys)),
          keep-IsKeyed _ d.api_keys h,
        )
    go none q = elim (Bool-cases (has_user user d.users)) [
      | inl known ↦ rw known (find-none user p.provider d.api_keys q, h)
      | inr absent ↦ rw absent h
    ]

module _ (fetch : Fetch) (encrypt : Text → Text) (fresh user : ℕ) (key : Text) (d : Db)
    (h : IsKeyed d.api_keys) where
  then-added :
      (p : ProbeResult) (x : Result ℕ × Db)
      → IsKeyed x.1.api_keys
      → IsKeyed (then_run (λ id d. (ok (added fetch encrypt key p id), d)) x).1.api_keys
  then-added p (err e, d') keyed = keyed
  then-added p (ok id, d') keyed = keyed

  store_key-IsKeyed :
      (r : Result ProbeResult) → IsKeyed (store_key fetch encrypt fresh user key r d).1.api_keys
  store_key-IsKeyed (err e) = h
  store_key-IsKeyed (ok p) =
      then-added p (upsert_key fresh user (encrypt key) key p d)
        (upsert_key-IsKeyed fresh user (encrypt key) key p d h)

  pub add_key-IsKeyed :
      (provider : Option KeyProvider) (base : Option Text)
      → IsKeyed (add_key fetch encrypt fresh user key provider base d).1.api_keys
  unfolding add_key
  add_key-IsKeyed provider base = store_key-IsKeyed (probe fetch key provider base)

pub delete_key-IsKeyed :
    (user id : ℕ) (d : Db) → IsKeyed d.api_keys → IsKeyed (delete_key user id d).1.api_keys
unfolding delete_key
delete_key-IsKeyed user id d h = elim (Bool-cases (any (is_key user id) d.api_keys)) [
  | inl there ↦ rw there (keep-IsKeyed _ d.api_keys h)
  | inr gone ↦ rw gone h
]
