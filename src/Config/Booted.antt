-- ===== src/Config/Booted.antt =====
-- What a process that has passed the check of src/config.ts can rely on.
use micro_manus_services.Base.{
  ℕ, zero, suc, ◌+◌, ◌≡◌, refl, sym, ◌≢◌, inl, inr, Bool, true, false, not, ◌&&◌, Option, none,
  some, List, [], ◌∷◌, arith, Bool-cases, Text, codes, length, keep, all, All,
}
use micro_manus_services.Db.{ok}
use micro_manus_services.Keys.Accepted.{injected}
use micro_manus_services.Config.{
  key_checked, or_empty, hex_result, found_or, or_fallback, Env, required, is_set, missing, is_hex,
  is_key, asserted, assert_env, env, from_hex, cipher_key,
}

-- A setting that is required and what it is, which is not empty.
pub record IsSetting (e : Env) (k : Text) : Type 0 where
  pub value : Text
  pub found : env e k none ≡ ok value
  pub filled : value ≢ []

set-IsSetting : (e : Env) (k : Text) → is_set (e k) ≡ true → IsSetting e k
unfolding env
set-IsSetting e k h = go (e k) refl h
  where
    go : (v : Option Text) → e k ≡ v → is_set v ≡ true → IsSetting e k
    go none q h = absurd cc
    go (some []) q h = absurd cc
    go (some (c ∷ cs)) q h = record { value = c ∷ cs; found = rw q refl; filled = λ p. cc }

none_missing :
    (e : Env) (ks : List Text) → keep (λ k. not (is_set (e k))) ks ≡ [] → All (IsSetting e) ks
none_missing e [] h = tt
none_missing e (k ∷ ks) h = elim (Bool-cases (is_set (e k))) [
  | inl set ↦ (set-IsSetting e k set, none_missing e ks (rw set at h))
  | inr unset ↦ absurd (ground (arith, rw unset at h))
]

both : (a b : Bool) → (a && b) ≡ true → (a ≡ true) × (b ≡ true)
both true b h = (refl, h)
both false b h = absurd cc

length-from_hex :
    (n : ℕ) (t : Text) → all is_hex t ≡ true → length t ≡ n + n → length (from_hex t) ≡ n
unfolding from_hex
length-from_hex n [] h k = omega arith
length-from_hex n (c ∷ []) h k = absurd (omega arith)
length-from_hex zero (c ∷ d ∷ cs) h k = absurd (omega arith)
length-from_hex (suc n) (c ∷ d ∷ cs) h k =
    let p = both (is_hex c) (is_hex d && all is_hex cs) h in
    let q = both (is_hex d) (all is_hex cs) p.1 in
    rw p.0 (rw q.0 (omega (arith, k, length-from_hex n cs q.1 (omega arith))))

is_key-length : (t : Text) → is_key t ≡ true → length (from_hex t) ≡ 32
is_key-length t h = length-from_hex 32 t (ground arith) (ground arith)

checked-is_key : (b : Bool) → key_checked b ≡ ok tt → b ≡ true
checked-is_key true h = refl
checked-is_key false h = absurd cc

cipher_key-length :
    (e : Env)
    → asserted e [] ≡ ok tt
    → is_set (e (codes "ENCRYPTION_KEY")) ≡ true
    → (key : Text) × (cipher_key e ≡ ok key) × (length key ≡ 32)
unfolding cipher_key env hex_result
cipher_key-length e = go (e (codes "ENCRYPTION_KEY")) refl
  where
    go :
        (v : Option Text)
        → e (codes "ENCRYPTION_KEY") ≡ v
        → key_checked (is_key (or_empty v)) ≡ ok tt
        → is_set v ≡ true
        → (key : Text) × (cipher_key e ≡ ok key) × (length key ≡ 32)
    go none q h k = absurd cc
    go (some t) q h k = (from_hex t, rw q refl, is_key-length t (checked-is_key (is_key t) h))

is_set-found : (e : Env) (k : Text) → IsSetting e k → is_set (e k) ≡ true
unfolding env
is_set-found e k s = go (e k) s.found
  where
    go : (v : Option Text) → found_or k (or_fallback v none) ≡ ok s.value → is_set v ≡ true
    go none h = absurd cc
    go (some []) h = absurd (s.filled (sym (injected h)))
    go (some (c ∷ cs)) h = refl

-- Where the check of the environment passes, every required setting is there and not empty, and the
-- key of the cipher has 32 bytes.
pub assert_env_settings :
    (e : Env)
    → assert_env e ≡ ok tt
    → All (IsSetting e) required × ((key : Text) × (cipher_key e ≡ ok key) × (length key ≡ 32))
unfolding assert_env
assert_env_settings e = go (missing e) refl
  where
    go :
        (ks : List Text)
        → missing e ≡ ks
        → asserted e ks ≡ ok tt
        → All (IsSetting e) required × ((key : Text) × (cipher_key e ≡ ok key) × (length key ≡ 32))
    go [] q h =
        let settings = none_missing e required q in
        (settings, cipher_key-length e h (is_set-found e (codes "ENCRYPTION_KEY") settings.1.1.1.0))
    go (k ∷ ks) q h = absurd cc
