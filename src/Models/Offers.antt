-- ===== src/Models/Offers.antt =====
-- How an entry of the list of models changes (src/models/models.controller.ts).
use micro_manus_services.Base.{
  ◌≡◌, refl, inl, inr, true, false, Option, none, some, List, [], ◌∷◌, ◌++◌, arith, if◌then◌else◌,
  Bool-cases, Text, find, update_where, text_eq,
}
use micro_manus_services.Base.Texts.{text_eq_sound, text_eq_refl}
use micro_manus_services.Db.{KeyProvider, provider_eq}
use micro_manus_services.Models.{ModelEntry}
use micro_manus_services.Models.Picker.{Offer, offer_of, offered, set_offer, is_openrouter}

pub provider_eq_sound : (p q : KeyProvider) → provider_eq p q ≡ true → p ≡ q
provider_eq_sound KeyProvider.openai KeyProvider.openai h = refl
provider_eq_sound KeyProvider.openai KeyProvider.anthropic h = cc
provider_eq_sound KeyProvider.openai KeyProvider.moonshot h = cc
provider_eq_sound KeyProvider.openai KeyProvider.groq h = cc
provider_eq_sound KeyProvider.openai KeyProvider.openrouter h = cc
provider_eq_sound KeyProvider.anthropic KeyProvider.openai h = cc
provider_eq_sound KeyProvider.anthropic KeyProvider.anthropic h = refl
provider_eq_sound KeyProvider.anthropic KeyProvider.moonshot h = cc
provider_eq_sound KeyProvider.anthropic KeyProvider.groq h = cc
provider_eq_sound KeyProvider.anthropic KeyProvider.openrouter h = cc
provider_eq_sound KeyProvider.moonshot KeyProvider.openai h = cc
provider_eq_sound KeyProvider.moonshot KeyProvider.anthropic h = cc
provider_eq_sound KeyProvider.moonshot KeyProvider.moonshot h = refl
provider_eq_sound KeyProvider.moonshot KeyProvider.groq h = cc
provider_eq_sound KeyProvider.moonshot KeyProvider.openrouter h = cc
provider_eq_sound KeyProvider.groq KeyProvider.openai h = cc
provider_eq_sound KeyProvider.groq KeyProvider.anthropic h = cc
provider_eq_sound KeyProvider.groq KeyProvider.moonshot h = cc
provider_eq_sound KeyProvider.groq KeyProvider.groq h = refl
provider_eq_sound KeyProvider.groq KeyProvider.openrouter h = cc
provider_eq_sound KeyProvider.openrouter KeyProvider.openai h = cc
provider_eq_sound KeyProvider.openrouter KeyProvider.anthropic h = cc
provider_eq_sound KeyProvider.openrouter KeyProvider.moonshot h = cc
provider_eq_sound KeyProvider.openrouter KeyProvider.groq h = cc
provider_eq_sound KeyProvider.openrouter KeyProvider.openrouter h = refl

-- The provider under which a model is listed.
abbrev pub via_of : Option Offer → Option KeyProvider
via_of none = none
via_of (some o) = some o.via

abbrev pub via : Text → List Offer → Option KeyProvider
via id seen = via_of (find (offer_of id) seen)

-- What seeing a model through a key does to that.
abbrev pub better : KeyProvider → Option KeyProvider → Option KeyProvider
better p none = some p
better p (some v) = if is_openrouter v then some p else some v

module _ (m : ModelEntry) (p : KeyProvider) where
  find-update_same :
      (seen : List Offer)
      → offered m.id seen ≡ true
      → find
          (offer_of m.id)
          (update_where (offer_of m.id) (λ _. record { model = m; via = p }) seen)
        ≡ some (record { model = m; via = p })
  find-update_same [] h = absurd cc
  find-update_same (o ∷ seen) h = ground (arith, text_eq_refl m.id, find-update_same seen)

  find-append_same :
      (seen : List Offer)
      → offered m.id seen ≡ false
      → find (offer_of m.id) (seen ++ record { model = m; via = p } ∷ [])
        ≡ some (record { model = m; via = p })
  find-append_same [] h = rw (text_eq_refl m.id) refl
  find-append_same (o ∷ seen) h = ground (arith, find-append_same seen)

  pub find-set_same :
      (seen : List Offer)
      → find (offer_of m.id) (set_offer m p seen) ≡ some (record { model = m; via = p })
  find-set_same seen = elim (Bool-cases (offered m.id seen)) [
    | inl old ↦ rw old (find-update_same seen old)
    | inr new ↦ rw new (find-append_same seen new)
  ]

  module _ (id : Text) (differ : text_eq m.id id ≡ false) where
    find-update_other :
        (seen : List Offer)
        → find
            (offer_of id)
            (update_where (offer_of m.id) (λ _. record { model = m; via = p }) seen)
          ≡ find (offer_of id) seen
    find-update_other [] = refl
    find-update_other (o ∷ seen) = elim (Bool-cases (offer_of m.id o)) [
      | inl hit ↦
          rw hit (
            rw differ (rw (text_eq_sound o.model.id m.id hit) (rw differ (find-update_other seen))))
      | inr miss ↦ rw miss (ground (arith, find-update_other seen))
    ]

    find-append_other :
        (seen : List Offer)
        → find (offer_of id) (seen ++ record { model = m; via = p } ∷ []) ≡ find (offer_of id) seen
    find-append_other [] = rw differ refl
    find-append_other (o ∷ seen) = ground (arith, find-append_other seen)

    pub find-set_other :
        (seen : List Offer) → find (offer_of id) (set_offer m p seen) ≡ find (offer_of id) seen
    find-set_other seen = elim (Bool-cases (offered m.id seen)) [
      | inl old ↦ rw old (find-update_other seen)
      | inr new ↦ rw new (find-append_other seen)
    ]
