-- ===== src/Keys/Moved.antt =====
-- The keys of the account that `mergeUsers` of src/auth/auth.service.ts folds into another.
use micro_manus_services.Base.{
  ℕ, ◌≡◌, refl, ap, inl, inr, Bool, true, false, not, ◌&&◌, ◌||◌, List, [], ◌∷◌, map, arith, ◌==◌,
  if◌then◌else◌, ==_iff, Bool-cases, keep, any,
}
use mathlib.Core.Path.{subst}
use micro_manus_services.Db.{ApiKeyRow, KeyProvider, provider_eq}
use micro_manus_services.Llm.Service.{key_for}
use micro_manus_services.Keys.Unique.{IsKeyed}
use micro_manus_services.Auth.Login.{move_key, has_key}
use micro_manus_services.Models.Offers.{provider_eq_sound}
use micro_manus_services.Keys.RoundTrip.{provider_eq_refl}

or-split : (x y : Bool) → (x || y) ≡ false → (x ≡ false) × (y ≡ false)
or-split true y h = absurd (ground (arith, h))
or-split false y h = (refl, h)

any-step :
    (p q : ApiKeyRow → Bool) (k : ApiKeyRow) (ks : List ApiKeyRow)
    → (q k && p k) ≡ false
    → any p ks ≡ false
    → any p (if q k then k ∷ ks else ks) ≡ false
any-step p q k ks here rest = ground (arith, here, rest)

module _ (winner loser : ℕ) (every : List ApiKeyRow) where
  abbrev stays : ApiKeyRow → Bool
  stays k = not (k.user_id == loser)

  abbrev move : ApiKeyRow → ApiKeyRow
  move = move_key winner loser every

  -- The winner has no key of the provider and would get this one.
  abbrev gives : ℕ → KeyProvider → Bool → Bool
  gives user p theirs = (user == winner) && not (has_key winner p every) && theirs

  move-none :
      (user : ℕ) (p : KeyProvider) (k : ApiKeyRow)
      → key_for user p k ≡ false
      → gives user p (key_for loser p k) ≡ false
      → (stays (move k) && key_for user p (move k)) ≡ false
  move-none user p k here given =
      elim (Bool-cases (k.user_id == loser && not (has_key winner k.provider every))) [
        | inl moves ↦ elim (Bool-cases (provider_eq k.provider p)) [
          | inl same ↦ rw moves (
              by_provider moves same
                (ap (λ q. has_key winner q every) (provider_eq_sound k.provider p same)))
          | inr other ↦ rw moves (rw other (ground arith))
        ]
        | inr keeps ↦ rw keeps (rw here (ground arith))
      ]
    where
      by_provider :
          (k.user_id == loser && not (has_key winner k.provider every)) ≡ true
          → provider_eq k.provider p ≡ true
          → has_key winner k.provider every ≡ has_key winner p every
          → (not (winner == loser) && ((winner == user) && provider_eq k.provider p)) ≡ false
      by_provider moves same e = ground (arith, moves, same, e, given)

  gives-split :
      (user : ℕ) (p : KeyProvider) (x y : Bool)
      → gives user p (x || y) ≡ false
      → (gives user p x ≡ false) × (gives user p y ≡ false)
  gives-split user p x y h = (ground (arith, h), ground (arith, h))

  any-moved :
      (user : ℕ) (p : KeyProvider) (ks : List ApiKeyRow)
      → any (key_for user p) ks ≡ false
      → gives user p (any (key_for loser p) ks) ≡ false
      → any (key_for user p) (keep stays (map move ks)) ≡ false
  any-moved user p [] here given = refl
  any-moved user p (k ∷ ks) here given =
      let split = or-split (key_for user p k) (any (key_for user p) ks) here in
      let parts = gives-split user p (key_for loser p k) (any (key_for loser p) ks) given in
      let rest = any-moved user p ks split.1 parts.1 in
      any-step (key_for user p) stays (move k) (keep stays (map move ks))
        (move-none user p k split.0 parts.0) rest

  -- The keys of the winner among these are among all of them.
  pub Covers : List ApiKeyRow → Type 0
  Covers ks = (p : KeyProvider) → has_key winner p every ≡ false → any (key_for winner p) ks ≡ false

  Covers-tail : (k : ApiKeyRow) (ks : List ApiKeyRow) → Covers (k ∷ ks) → Covers ks
  unfolding Covers
  Covers-tail k ks c p none_there =
      (or-split (key_for winner p k) (any (key_for winner p) ks) (c p none_there)).1

  gives-none : (user : ℕ) (p : KeyProvider) {x : Bool} → x ≡ false → gives user p x ≡ false
  gives-none user p h = ground (arith, h)

  covered :
      (k : ApiKeyRow) (ks : List ApiKeyRow)
      → Covers (k ∷ ks)
      → gives k.user_id k.provider (any (key_for loser k.provider) ks) ≡ false
  unfolding Covers
  covered k ks c = elim (Bool-cases (has_key winner k.provider every)) [
    | inl there ↦ rw there (ground arith)
    | inr absent ↦ rw (mine (provider_eq_refl k.provider) (c k.provider absent)) refl
  ]
    where
      mine :
          provider_eq k.provider k.provider ≡ true
          → any (key_for winner k.provider) (k ∷ ks) ≡ false
          → (k.user_id == winner) ≡ false
      mine same no_one = ground (arith, same, no_one)

  head-moved :
      (k : ApiKeyRow) (ks : List ApiKeyRow)
      → Covers (k ∷ ks)
      → any (key_for k.user_id k.provider) ks ≡ false
      → stays (move k) ≡ true
      → any (key_for (move k).user_id (move k).provider) (keep stays (map move ks)) ≡ false
  unfolding Covers
  head-moved k ks c alone kept =
      elim (Bool-cases (k.user_id == loser && not (has_key winner k.provider every))) [
        | inl moves ↦ rw moves (
            any-moved winner k.provider ks (Covers-tail k ks c k.provider (ground (arith, moves))) (
              gives-none winner k.provider (
                subst (λ u. any (key_for u k.provider) ks ≡ false)
                  ((==_iff k.user_id loser).0 (ground (arith, moves))) alone)))
        | inr keeps ↦ rw keeps (any-moved k.user_id k.provider ks alone (covered k ks c))
      ]

  pub moved-IsKeyed :
      (ks : List ApiKeyRow) → Covers ks → IsKeyed ks → IsKeyed (keep stays (map move ks))
  unfolding IsKeyed
  moved-IsKeyed [] c h = tt
  moved-IsKeyed (k ∷ ks) c h = elim (Bool-cases (stays (move k))) [
    | inl kept ↦ rw kept (head-moved k ks c h.0 kept, moved-IsKeyed ks (Covers-tail k ks c) h.1)
    | inr gone ↦ rw gone (moved-IsKeyed ks (Covers-tail k ks c) h.1)
  ]

pub every-Covers : (winner loser : ℕ) (ks : List ApiKeyRow) → Covers winner loser ks ks
unfolding Covers
every-Covers winner loser ks p h = h
