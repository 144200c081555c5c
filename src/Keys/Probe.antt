-- ===== src/Keys/Probe.antt =====
-- `probe` and `fetchModels` of src/keys/keys.service.ts: a key is tried against providers. HTTP
-- requests are a parameter.
use micro_manus_services.Base.{
  ℕ, ◌+◌, ◌/◌, ◌%◌, Bool, ◌&&◌, Option, none, some, List, [], ◌∷◌, ◌++◌, leb, ◌==◌, if◌then◌else◌,
  Text, codes, length, take, text_eq,
}
use micro_manus_services.Db.{Result, ok, err, Error, http, other, KeyProvider}
use micro_manus_services.Billing.{message_of}

-- `PROVIDER_BASE_URLS`
abbrev pub base_url_of : KeyProvider → Text
base_url_of KeyProvider.openai = codes "https://api.openai.com/v1"
base_url_of KeyProvider.moonshot = codes "https://api.moonshot.ai/v1"
base_url_of KeyProvider.groq = codes "https://api.groq.com/openai/v1"
base_url_of KeyProvider.openrouter = codes "https://openrouter.ai/api/v1"
base_url_of KeyProvider.anthropic = codes "https://api.anthropic.com/v1"

abbrev provider_name : KeyProvider → Text
provider_name KeyProvider.openai = codes "openai"
provider_name KeyProvider.moonshot = codes "moonshot"
provider_name KeyProvider.groq = codes "groq"
provider_name KeyProvider.openrouter = codes "openrouter"
provider_name KeyProvider.anthropic = codes "anthropic"

pub record ProbeResult : Type 0 where
  pub provider : KeyProvider
  pub base_url : Text
  pub models : List Text

-- A response of `fetch`: its status, and the ids of `data` if the body is JSON.
pub record Response : Type 0 where
  pub status : ℕ
  pub json : Result (Option (List Text))

-- `fetch`, by the URL and the headers.
abbrev pub Fetch : Type 0
Fetch = Text → List (Text × Text) → Result Response

abbrev pub is_ok : Response → Bool
is_ok r = leb 200 r.status && leb r.status 299

-- The three digits of a status.
abbrev digits : ℕ → Text
digits s = (48 + s / 100) ∷ (48 + s / 10 % 10) ∷ (48 + s % 10) ∷ []

abbrev http_error : Response → Error
http_error r = other none (codes "HTTP " ++ digits r.status)

-- `base.replace(/\/$/, '')`
abbrev pub strip_slash : Text → Text
strip_slash [] = []
strip_slash (c ∷ []) = if c == 47 then [] else c ∷ []
strip_slash (c ∷ d ∷ ds) = c ∷ strip_slash (d ∷ ds)

abbrev pub starts_with : Text → Text → Bool
starts_with prefix t = text_eq (take (length prefix) t) prefix

-- The candidates of `probe`: the named provider, the one that the prefix tells, or all.
unfoldable pub candidates : Text → Option KeyProvider → List KeyProvider
candidates key (some p) = p ∷ []
candidates key none =
    if starts_with (codes "sk-ant-") key
    then KeyProvider.anthropic ∷ []
    else if starts_with (codes "sk-or-") key
    then KeyProvider.openrouter ∷ []
    else if starts_with (codes "gsk_") key
    then KeyProvider.groq ∷ []
    else KeyProvider.openai ∷ KeyProvider.groq ∷ KeyProvider.moonshot ∷ KeyProvider.openrouter
      ∷ KeyProvider.anthropic ∷ []

-- `baseUrl && candidates.length === 1 ? baseUrl : …`
abbrev pub base_for : Option Text → Bool → KeyProvider → Text
base_for none single p = base_url_of p
base_for (some []) single p = base_url_of p
base_for (some (c ∷ cs)) single p = if single then c ∷ cs else base_url_of p

abbrev join_errors : List Text → Text
join_errors [] = []
join_errors (e ∷ []) = e
join_errors (e ∷ f ∷ fs) = e ++ codes " | " ++ join_errors (f ∷ fs)

abbrev pub bearer : Text → List (Text × Text)
bearer key = (codes "Authorization", codes "Bearer " ++ key) ∷ []

abbrev pub auth_headers : KeyProvider → Text → List (Text × Text)
auth_headers KeyProvider.anthropic key =
    (codes "x-api-key", key) ∷ (codes "anthropic-version", codes "2023-06-01") ∷ []
auth_headers p key = bearer key

abbrev ids_or_empty : Option (List Text) → List Text
ids_or_empty none = []
ids_or_empty (some ids) = ids

abbrev ids_of : Result (Option (List Text)) → Result (List Text)
ids_of (err e) = err e
ids_of (ok ids) = ok (ids_or_empty ids)

abbrev key_checked : Result Response → Result (List Text)
key_checked (err e) = err e
key_checked (ok r) = if is_ok r then ok [] else err (http_error r)

abbrev models_read : Result Response → Result (List Text)
models_read (err e) = err e
models_read (ok r) = if is_ok r then ids_of r.json else err (http_error r)

module _ (fetch : Fetch) where
  -- `fetchModels`: OpenRouter's list of models is public, so its `/key` is asked.
  unfoldable pub fetch_models : KeyProvider → Text → Text → Result (List Text)
  fetch_models KeyProvider.openrouter base key =
      key_checked (fetch (strip_slash base ++ codes "/key") (bearer key))
  fetch_models p base key =
      models_read (fetch (strip_slash base ++ codes "/models") (auth_headers p key))

  -- The candidate that accepted the key, or what follows.
  abbrev pub tried :
      KeyProvider → Text → Result (List Text) → (Error → Result ProbeResult) → Result ProbeResult
  tried p base (ok models) next = ok (record { provider = p; base_url = base; models = models })
  tried p base (err e) next = next e

  abbrev pub probe_error : KeyProvider → Error → Text
  probe_error p e = provider_name p ++ codes ": " ++ message_of e

  -- The loop of `probe`.
  unfoldable pub try_candidates :
      Text → Option Text → Bool → List Text → List KeyProvider → Result ProbeResult
  unfolding fetch_models
  try_candidates key base single errors [] =
      err (
        http 400 (codes "Could not validate this key against any provider. " ++ join_errors errors))
  try_candidates key base single errors (p ∷ ps) =
      tried p (base_for base single p) (fetch_models p (base_for base single p) key)
        (λ e. try_candidates key base single (errors ++ probe_error p e ∷ []) ps)

  unfoldable pub probe : Text → Option KeyProvider → Option Text → Result ProbeResult
  unfolding candidates try_candidates fetch_models
  probe key provider base =
      let ps = candidates key provider in try_candidates key base (length ps == 1) [] ps
