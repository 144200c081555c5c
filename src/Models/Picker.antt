-- ===== src/Models/Picker.antt =====
-- src/models/models.controller.ts: the list of the models that a user's keys unlock.
use micro_manus_services.Base.{
  ℕ, Bool, false, not, ◌||◌, Option, none, some, List, [], ◌∷◌, ◌++◌, ◌==◌, if◌then◌else◌, Text,
  keep, find, any, update_where, text_eq,
}
use micro_manus_services.Db.{Query, ok, ApiKeyRow, KeyProvider, provider_eq}
use micro_manus_services.Models.{ModelEntry, models_for_key}

-- An entry of the answer.
pub record Offer : Type 0 where
  pub model : ModelEntry
  pub via : KeyProvider

abbrev pub offer_of : Text → Offer → Bool
offer_of id o = text_eq o.model.id id

abbrev pub offered : Text → List Offer → Bool
offered id seen = any (offer_of id) seen

-- `seen.set(m.id, …)`: a key of a `Map` that is there keeps its place.
abbrev pub set_offer : ModelEntry → KeyProvider → List Offer → List Offer
set_offer m p seen =
    if offered m.id seen
    then update_where (offer_of m.id) (λ _. record { model = m; via = p }) seen
    else seen ++ record { model = m; via = p } ∷ []

abbrev pub is_openrouter : KeyProvider → Bool
is_openrouter p = provider_eq p KeyProvider.openrouter

-- `seen.get(m.id)!.via === 'openrouter'`
abbrev pub via_openrouter : Option Offer → Bool
via_openrouter none = false
via_openrouter (some o) = is_openrouter o.via

unfoldable pub see_model : KeyProvider → ModelEntry → List Offer → List Offer
see_model p m seen =
    if not (offered m.id seen) || via_openrouter (find (offer_of m.id) seen)
    then set_offer m p seen
    else seen

unfoldable pub see_models : KeyProvider → List ModelEntry → List Offer → List Offer
unfolding see_model
see_models p [] seen = seen
see_models p (m ∷ ms) seen = see_models p ms (see_model p m seen)

unfoldable pub see_keys : List ApiKeyRow → List Offer → List Offer
unfolding see_models
see_keys [] seen = seen
see_keys (k ∷ ks) seen = see_keys ks (see_models k.provider (models_for_key k.provider) seen)

abbrev pub is_key_of : ℕ → ApiKeyRow → Bool
is_key_of user k = k.user_id == user

-- `ModelsController.models`
unfoldable pub list_models : ℕ → Query (List Offer)
unfolding see_keys
list_models user d = (ok (see_keys (keep (is_key_of user) d.api_keys) []), d)
