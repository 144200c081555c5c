-- ===== src/Models.antt =====
-- src/models: the registry of models with its prices, and the models that a user's keys unlock.
mod Table
pub mod Picker
pub mod Offers
pub mod Runnable
pub mod Resolution
pub use Table.*
use micro_manus_services.Base.{Bool, Option, List, Text, text_eq, find, keep, if◌then◌else◌}
use micro_manus_services.Db.{KeyProvider, provider_eq}

unfoldable pub get_model : Text → Option ModelEntry
get_model id = find (λ m. text_eq m.id id) models

unfoldable pub wire_id : ModelEntry → KeyProvider → Text
wire_id m KeyProvider.openrouter = m.openrouter_id
wire_id m _ = m.direct_id

unfoldable pub models_for_key : KeyProvider → List ModelEntry
models_for_key KeyProvider.openrouter = models
models_for_key p = keep (λ m. provider_eq m.vendor p) models
