-- ===== src/Models/Resolution.antt =====
-- The list of models (src/models/models.controller.ts) against the choice of a key (`resolveKey` of
-- src/llm/llm.service.ts).
use micro_manus_services.Base.{
  ℕ, ◌≡◌, refl, sym, ap, ◌∙◌, ◌⊎◌, inl, inr, Bool, true, false, not, ◌&&◌, ◌||◌, Option, none, some,
  List, [], ◌∷◌, arith, ◌==◌, if◌then◌else◌, Bool-cases, Text, keep, find, any, all,
}
use micro_manus_services.Db.{Db, ok, ApiKeyRow, KeyProvider, provider_eq}
use micro_manus_services.Models.{ModelEntry, models, get_model}
use micro_manus_services.Models.Picker.{Offer, see_keys, is_key_of, list_models, is_openrouter}
use micro_manus_services.Models.Offers.{via, better, provider_eq_sound}
use micro_manus_services.Models.Runnable.{
  lists, best, is_regular, providers, iff, see_keys-via, table_regular, named,
}
use micro_manus_services.Llm.Service.{pick_key, key_for, or_else}

find-all :
    {A : Type 0} (q r : A → Bool) (xs : List A) (x : A)
    → all q xs ≡ true
    → find r xs ≡ some x
    → q x ≡ true
find-all q r [] x h f = absurd cc
find-all q r (y ∷ xs) x h f = elim (Bool-cases (r y)) [
  | inl hit ↦ ground (arith, h, f, hit)
  | inr miss ↦ find-all q r xs x (ground (arith, h)) (rw miss at f)
]

abbrev pub has_key : KeyProvider → List ApiKeyRow → Bool
has_key v ks = any (λ k. provider_eq k.provider v) ks

all-providers : (q : KeyProvider → Bool) → all q providers ≡ true → (p : KeyProvider) → q p ≡ true
all-providers q h KeyProvider.openai = ground (arith, h)
all-providers q h KeyProvider.anthropic = ground (arith, h)
all-providers q h KeyProvider.moonshot = ground (arith, h)
all-providers q h KeyProvider.groq = ground (arith, h)
all-providers q h KeyProvider.openrouter = ground (arith, h)

iff_eq : (b c : Bool) → iff b c ≡ true → b ≡ c
iff_eq true c h = sym h
iff_eq false true h = cc
iff_eq false false h = refl

both_hold : (b c : Bool) → (b && c) ≡ true → (b ≡ true) × (c ≡ true)
both_hold true c h = (refl, h)
both_hold false c h = cc

-- The provider of a key, where there is one.
abbrev pub key_provider : Option ApiKeyRow → Option KeyProvider
key_provider none = none
key_provider (some k) = some k.provider

module _ (m : ModelEntry) (regular : is_regular m ≡ true) where
  abbrev matches : KeyProvider → Bool
  matches p = is_openrouter p || provider_eq p m.vendor

  halves :
      (all (λ p. iff (lists m.id p) (matches p)) providers ≡ true)
      × (not (is_openrouter m.vendor) ≡ true)
  halves = both_hold _ _ regular

  direct : is_openrouter m.vendor ≡ false
  direct = negated (is_openrouter m.vendor) halves.1
    where
      negated : (b : Bool) → not b ≡ true → b ≡ false
      negated true h = cc
      negated false h = refl

  lists_lem : (p : KeyProvider) → lists m.id p ≡ matches p
  lists_lem p = iff_eq _ _ (all-providers (λ p. iff (lists m.id p) (matches p)) halves.0 p)

  -- How a key changes the provider that was found before it.
  abbrev through : KeyProvider → Option KeyProvider → Option KeyProvider
  through p o = if matches p then better p o else o

  best_step :
      (k : ApiKeyRow) (ks : List ApiKeyRow) (o : Option KeyProvider)
      → best m.id (k ∷ ks) o ≡ best m.id ks (through k.provider o)
  best_step k ks o =
      ap (λ b. best m.id ks (if b then better k.provider o else o)) (lists_lem k.provider)

  through_direct : (p : KeyProvider) → through p (some m.vendor) ≡ some m.vendor
  through_direct p = ground (arith, direct)

  -- A key of the vendor itself wins.
  through_own :
      (p : KeyProvider) (o : Option KeyProvider)
      → provider_eq p m.vendor ≡ true
      → (o ≡ none) ⊎ (o ≡ some KeyProvider.openrouter)
      → through p o ≡ some m.vendor
  through_own p o own (inl e) = ground (arith, own, e) ∙ ap some (provider_eq_sound p m.vendor own)
  through_own p o own (inr e) = ground (arith, own, e) ∙ ap some (provider_eq_sound p m.vendor own)

  through_router :
      (p : KeyProvider) (o : Option KeyProvider)
      → is_openrouter p ≡ true
      → (o ≡ none) ⊎ (o ≡ some KeyProvider.openrouter)
      → through p o ≡ some KeyProvider.openrouter
  through_router p o router (inl e) =
      ground (arith, router, e) ∙ ap some (provider_eq_sound p KeyProvider.openrouter router)
  through_router p o router (inr e) =
      ground (arith, router, e) ∙ ap some (provider_eq_sound p KeyProvider.openrouter router)

  through_foreign :
      (p : KeyProvider) (o : Option KeyProvider)
      → is_openrouter p ≡ false
      → provider_eq p m.vendor ≡ false
      → through p o ≡ o
  through_foreign p o h k = rw h (rw k refl)

  best_direct : (ks : List ApiKeyRow) → best m.id ks (some m.vendor) ≡ some m.vendor
  best_direct [] = refl
  best_direct (k ∷ ks) =
      best_step k ks (some m.vendor)
      ∙ ap (best m.id ks) (through_direct k.provider)
      ∙ best_direct ks

  -- The vendor's own provider if there is a key of it, else OpenRouter if there is one.
  abbrev choose : Bool → Bool → Option KeyProvider
  choose true router = some m.vendor
  choose false true = some KeyProvider.openrouter
  choose false false = none

  best_router :
      (ks : List ApiKeyRow)
      → best m.id ks (some KeyProvider.openrouter) ≡ choose (has_key m.vendor ks) true
  best_router [] = refl
  best_router (k ∷ ks) =
      best_step k ks (some KeyProvider.openrouter)
      ∙ elim (Bool-cases (provider_eq k.provider m.vendor)) [
        | inl own ↦
            ap (best m.id ks) (through_own k.provider _ own (inr refl))
            ∙ best_direct ks
            ∙ sym (rw own refl)
        | inr other ↦ elim (Bool-cases (is_openrouter k.provider)) [
          | inl router ↦
              ap (best m.id ks) (through_router k.provider _ router (inr refl))
              ∙ best_router ks
              ∙ sym (rw other refl)
          | inr foreign ↦
              ap (best m.id ks) (through_foreign k.provider _ foreign other)
              ∙ best_router ks
              ∙ sym (rw other refl)
        ]
      ]

  best-none :
      (ks : List ApiKeyRow)
      → best m.id ks none ≡ choose (has_key m.vendor ks) (has_key KeyProvider.openrouter ks)
  best-none [] = refl
  best-none (k ∷ ks) = best_step k ks none ∙ elim (Bool-cases (provider_eq k.provider m.vendor)) [
    | inl own ↦
        ap (best m.id ks) (through_own k.provider _ own (inl refl))
        ∙ best_direct ks
        ∙ sym (rw own refl)
    | inr other ↦ elim (Bool-cases (is_openrouter k.provider)) [
      | inl router ↦
          ap (best m.id ks) (through_router k.provider _ router (inl refl))
          ∙ best_router ks
          ∙ sym (rw other (rw router refl))
      | inr foreign ↦
          ap (best m.id ks) (through_foreign k.provider _ foreign other)
          ∙ best-none ks
          ∙ sym (rw other (rw foreign refl))
    ]
  ]

  -- A search for a user's key of a provider, against the rows of the user.
  find-key :
      (user : ℕ) (v : KeyProvider) (ks : List ApiKeyRow)
      → key_provider (find (key_for user v) ks)
        ≡ (if has_key v (keep (is_key_of user) ks) then some v else none)
  find-key user v [] = refl
  find-key user v (k ∷ ks) = elim (Bool-cases (k.user_id == user)) [
    | inr stranger ↦ rw stranger (find-key user v ks)
    | inl mine ↦ elim (Bool-cases (provider_eq k.provider v)) [
      | inl hit ↦ rw mine (rw hit (ap some (provider_eq_sound k.provider v hit)))
      | inr miss ↦ rw mine (rw miss (find-key user v ks))
    ]
  ]

  key_provider-or_else :
      (a b : Option ApiKeyRow) (x y : Bool)
      → key_provider a ≡ (if x then some m.vendor else none)
      → key_provider b ≡ (if y then some KeyProvider.openrouter else none)
      → key_provider (or_else a b) ≡ choose x y
  key_provider-or_else (some k) b true y h i = h
  key_provider-or_else (some k) b false y h i = cc
  key_provider-or_else none b true y h i = cc
  key_provider-or_else none b false true h i = i
  key_provider-or_else none b false false h i = i

  regular_agree :
      (user : ℕ) (d : Db)
      → via m.id (see_keys (keep (is_key_of user) d.api_keys) [])
        ≡ key_provider (pick_key user m d.api_keys)
  unfolding pick_key
  regular_agree user d =
      see_keys-via m.id (keep (is_key_of user) d.api_keys) []
      ∙ best-none (keep (is_key_of user) d.api_keys)
      ∙ sym (
          key_provider-or_else _ _ _ _ (find-key user m.vendor d.api_keys)
            (find-key user KeyProvider.openrouter d.api_keys))

-- A model of the registry is listed for a user if and only if the user has a key that it would run
-- with, and it is listed with the provider of that key.
pub list_models-pick_key :
    (id : Text) (m : ModelEntry) (user : ℕ) (d : Db) (offers : List Offer)
    → get_model id ≡ some m
    → list_models user d ≡ (ok offers, d)
    → via m.id offers ≡ key_provider (pick_key user m d.api_keys)
unfolding list_models get_model
list_models-pick_key id m user d offers known listed =
    ap (via m.id) same
    ∙ regular_agree m (find-all is_regular (named id) models m table_regular known) user d
  where
    same : offers ≡ see_keys (keep (is_key_of user) d.api_keys) []
    same = ground (arith, listed)
