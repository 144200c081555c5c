-- ===== src/Models/Runnable.antt =====
-- The list of models (src/models/models.controller.ts) as a fold over the user's keys.
use micro_manus_services.Base.{
  ◌≡◌, refl, sym, ap, ◌∙◌, ◌⊎◌, inl, inr, Bool, true, false, not, ◌&&◌, ◌||◌, Option, none, some,
  List, [], ◌∷◌, arith, if◌then◌else◌, Bool-cases, Text, find, any, all, text_eq,
}
use micro_manus_services.Base.Texts.{text_eq_sound}
use micro_manus_services.Db.{ApiKeyRow, KeyProvider, provider_eq}
use micro_manus_services.Models.{ModelEntry, models_for_key, models}
use micro_manus_services.Models.Picker.{
  Offer, offer_of, offered, is_openrouter, via_openrouter, see_model, see_models, see_keys,
}
use micro_manus_services.Models.Offers.{via, via_of, better, find-set_same, find-set_other}

find-any :
    {A : Type 0} (q : A → Bool) (xs : List A)
    → ((find q xs ≡ none) × (any q xs ≡ false))
      ⊎ ((x : A) × (find q xs ≡ some x) × (any q xs ≡ true))
find-any q [] = inl (refl, refl)
find-any q (x ∷ xs) = elim (Bool-cases (q x)) [
  | inl hit ↦ inr (x, rw hit refl, rw hit refl)
  | inr miss ↦ rw miss (find-any q xs)
]

replaces : ModelEntry → List Offer → Bool
replaces m seen = not (offered m.id seen) || via_openrouter (find (offer_of m.id) seen)

see_model_same :
    (p : KeyProvider) (m : ModelEntry) (seen : List Offer)
    → via m.id (see_model p m seen) ≡ better p (via m.id seen)
unfolding see_model replaces
see_model_same p m seen = elim (find-any (offer_of m.id) seen) [
  | inl (absent, none_offered) ↦
      set (ground (arith, none_offered)) ∙ ap (better p) (ap via_of (sym absent))
  | inr (o, found, some_offered) ↦ elim (Bool-cases (is_openrouter o.via)) [
    | inl router ↦ set (ground (arith, found, router)) ∙ sym (rw found (rw router refl))
    | inr direct ↦ rw some_offered (rw found (rw direct (rw found refl)))
  ]
]
  where
    set : replaces m seen ≡ true → via m.id (see_model p m seen) ≡ some p
    set e = rw e (ap via_of (find-set_same m p seen))

see_model_other :
    (p : KeyProvider) (m : ModelEntry) (id : Text) (seen : List Offer)
    → text_eq m.id id ≡ false
    → via id (see_model p m seen) ≡ via id seen
unfolding see_model
see_model_other p m id seen differ =
    elim (Bool-cases (not (offered m.id seen) || via_openrouter (find (offer_of m.id) seen))) [
      | inl replace ↦ rw replace (ap via_of (find-set_other m p id differ seen))
      | inr leave ↦ rw leave refl
    ]

abbrev pub named : Text → ModelEntry → Bool
named id m = text_eq m.id id

better_twice : (p : KeyProvider) (o : Option KeyProvider) → better p (better p o) ≡ better p o
better_twice p none = ground arith
better_twice p (some v) = ground arith

see_models-via :
    (p : KeyProvider) (id : Text) (ms : List ModelEntry) (seen : List Offer)
    → via id (see_models p ms seen)
      ≡ (if any (named id) ms then better p (via id seen) else via id seen)
unfolding see_models
see_models-via p id [] seen = refl
see_models-via p id (m ∷ ms) seen = elim (Bool-cases (named id m)) [
  | inl hit ↦
      see_models-via p id ms (see_model p m seen)
      ∙ ap (λ o. if any (named id) ms then better p o else o)
          (ap (λ i. via i (see_model p m seen)) (sym (text_eq_sound m.id id hit))
            ∙ see_model_same p m seen
            ∙ ap (λ i. better p (via i seen)) (text_eq_sound m.id id hit))
      ∙ rw hit (settled (any (named id) ms))
  | inr miss ↦
      see_models-via p id ms (see_model p m seen)
      ∙ rw miss (rw (see_model_other p m id seen miss) refl)
]
  where
    settled :
        (b : Bool)
        → (if b then better p (better p (via id seen)) else better p (via id seen))
          ≡ better p (via id seen)
    settled true = better_twice p (via id seen)
    settled false = refl

-- Whether a key of a provider lists a model.
abbrev pub lists : Text → KeyProvider → Bool
lists id p = any (named id) (models_for_key p)

abbrev pub best : Text → List ApiKeyRow → Option KeyProvider → Option KeyProvider
best id [] o = o
best id (k ∷ ks) o = best id ks (if lists id k.provider then better k.provider o else o)

pub see_keys-via :
    (id : Text) (ks : List ApiKeyRow) (seen : List Offer)
    → via id (see_keys ks seen) ≡ best id ks (via id seen)
unfolding see_keys
see_keys-via id [] seen = refl
see_keys-via id (k ∷ ks) seen =
    see_keys-via id ks (see_models k.provider (models_for_key k.provider) seen)
    ∙ ap (best id ks) (see_models-via k.provider id (models_for_key k.provider) seen)

abbrev pub providers : List KeyProvider
providers =
    KeyProvider.openai ∷ KeyProvider.anthropic ∷ KeyProvider.moonshot ∷ KeyProvider.groq
    ∷ KeyProvider.openrouter ∷ []

abbrev pub iff : Bool → Bool → Bool
iff true b = b
iff false b = not b

-- A model of the table is listed by its vendor's key and by an OpenRouter key, and by no other.
abbrev pub is_regular : ModelEntry → Bool
is_regular m =
    all (λ p. iff (lists m.id p) (is_openrouter p || provider_eq p m.vendor)) providers
    && not (is_openrouter m.vendor)

pub table_regular : all is_regular models ≡ true
unfolding models_for_key text_eq
table_regular = refl
