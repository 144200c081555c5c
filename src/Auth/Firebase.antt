-- ===== src/Auth/Firebase.antt =====
-- src/auth/firebase.service.ts: the SDK behind the sign-in. The SDK itself is a parameter; the log
-- is left out.
use micro_manus_services.Base.{
  ⊤, Bool, true, false, Option, none, some, List, [], ◌∷◌, ◌==◌, if◌then◌else◌, Text, codes, find,
  ◌++◌, ℕ,
}
use micro_manus_services.Db.{Result, ok, err, Error, http}
use micro_manus_services.Auth.Login.{Decoded}

pub record UserRecord : Type 0 where
  pub email : Option Text
  pub provider_emails : List (Option Text)

-- `has_app` says whether `getApps()` has an app; `verify` is `verifyIdToken` with the check for
-- revoked tokens.
pub record Sdk : Type 0 where
  pub has_app : Bool
  pub initialize : (project_id client_email private_key : Text) → Result ⊤
  pub verify : Text → Result Decoded
  pub get_user : Text → Result UserRecord

pub record FirebaseEnv : Type 0 where
  pub project_id : Option Text
  pub client_email : Option Text
  pub private_key : Option Text

-- `.replace(/\\n/g, '\n')`
-- A backslash is held back until the next character is known.
abbrev shown : (held : Bool) → ℕ → Text
shown false c = if c == 92 then [] else c ∷ []
shown true c = if c == 110 then 10 ∷ [] else if c == 92 then 92 ∷ [] else 92 ∷ c ∷ []

normalized_after : (held : Bool) → Text → Text
normalized_after false [] = []
normalized_after true [] = 92 ∷ []
normalized_after held (c ∷ cs) = shown held c ++ normalized_after (c == 92) cs

unfoldable pub normalized : Text → Text
unfolding normalized_after
normalized = normalized_after false

module _ (sdk : Sdk) where
  abbrev initialized : Result ⊤ → Bool
  initialized (ok a) = true
  initialized (err e) = false

  abbrev started : Text → Text → Text → Bool
  unfolding normalized
  started project email key =
      if sdk.has_app then true else initialized (sdk.initialize project email (normalized key))

  -- `if (!projectId || !clientEmail || !privateKey)`: an empty text is missing, too.
  abbrev configured : Option Text → Option Text → Option Text → Bool
  unfolding started
  configured (some (p ∷ ps)) (some (e ∷ es)) (some (k ∷ ks)) = started (p ∷ ps) (e ∷ es) (k ∷ ks)
  configured _ _ _ = false

  -- `onModuleInit`: whether there is an app then.
  unfoldable pub on_module_init : FirebaseEnv → Bool
  unfolding configured
  on_module_init env = configured env.project_id env.client_email env.private_key

  abbrev pub invalid_token : Error
  invalid_token = http 401 (codes "Invalid sign-in token")

  abbrev pub not_configured : Error
  not_configured = http 401 (codes "Auth is not configured")

  abbrev pub checked : Result Decoded → Result Decoded
  checked (ok who) = ok who
  checked (err e) = err invalid_token

  unfoldable pub verify_id_token : (app : Bool) → Text → Result Decoded
  verify_id_token true token = checked (sdk.verify token)
  verify_id_token false token = err not_configured

  abbrev is_email : Option Text → Bool
  is_email (some (c ∷ cs)) = true
  is_email _ = false

  abbrev joined : Option (Option Text) → Option Text
  joined none = none
  joined (some e) = e

  -- `rec.email ?? rec.providerData.find((p) => p.email)?.email ?? null`
  abbrev email_in : Result UserRecord → Option Text
  email_in (err e) = none
  email_in (ok u) = elim u.email [
    | some e ↦ some e
    | none ↦ joined (find is_email u.provider_emails)
  ]

  unfoldable pub resolve_email : (app : Bool) → Text → Option Text
  resolve_email true uid = email_in (sdk.get_user uid)
  resolve_email false uid = none
