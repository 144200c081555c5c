-- ===== src/Tests/Server.antt =====
-- The connection, the sign-in and the settings at concrete inputs.
use micro_manus_services.Base.{
  ℕ, ◌≡◌, refl, ◌⊎◌, true, false, none, some, [], ◌∷◌, if◌then◌else◌, Text, codes, length, All,
  text_eq,
}
use micro_manus_services.Base.Chars.{to_lower_case, trim}
use micro_manus_services.Db.{ok, err, Error, other, Query}
use micro_manus_services.Pool.{Link, Server, client_tx}
use micro_manus_services.Pool.Atomic.{client_tx-IsAtomic, IsAtomic}
use micro_manus_services.Auth.Login.{login_with_id_token, login_tx, update_user, Decoded}
use micro_manus_services.Auth.Firebase.{
  verify_id_token, Sdk, resolve_email, normalized, not_configured, invalid_token,
}
use micro_manus_services.Auth.Verified.{email_for, sign_in, sign_in_verified, IsAccountOf}
use micro_manus_services.Config.{
  Env, Address, required, assert_env, cipher_key, redis_connection_options, retry_delay, origins,
}
use micro_manus_services.Config.Booted.{IsSetting, assert_env_settings}
use micro_manus_services.Tests.Data.{bob, sample}

abbrev fault : Error
fault = other none (codes "Connection terminated")

-- A link that works, and one whose answer to COMMIT and ROLLBACK is lost.
abbrev link : Link
link = record { connect = ok tt; begin = ok tt; commit = ok tt; landed = true; rollback = ok tt }

abbrev cut_link : Link
cut_link = record link { commit = err fault; rollback = err fault }

abbrev server : Server
server = record { committed = sample; working = none; clients = 4 }

abbrev no_runs : Query ℕ
no_runs d = (ok 7, record d { runs = [] })

client_tx-IsAtomic_example : IsAtomic cut_link no_runs server (client_tx cut_link no_runs server)
client_tx-IsAtomic_example = client_tx-IsAtomic cut_link no_runs server refl

-- The caller is told of a failure, and the statements have taken effect.
landed_unanswered :
    client_tx cut_link no_runs server
    ≡ (err fault, record server { committed = record sample { runs = [] } })
unfolding client_tx
landed_unanswered = refl

abbrev who : Decoded
who = record {
  uid = codes "h-2";
  sign_in_provider = some (codes "github.com");
  email = none;
  name = none;
  picture = none;
}

abbrev sdk : Sdk
sdk = record {
  has_app = false;
  initialize = λ p e k. ok tt;
  verify = λ t. if text_eq t (codes "good") then ok who else err fault;
  get_user = λ uid.
      ok
        (record { email = none; provider_emails = none ∷ some [] ∷ some (codes "bob@x.org") ∷ [] });
}

sign_in_verified_example :
    ((true ≡ false)
      × (sign_in sdk none (codes "good") 3 sample true ≡ (err (not_configured sdk), sample)))
    ⊎ ((x : Error) × (sdk.verify (codes "good") ≡ err x)
        × (sign_in sdk none (codes "good") 3 sample true ≡ (err (invalid_token sdk), sample)))
    ⊎ ((who : Decoded) × (sdk.verify (codes "good") ≡ ok who)
        × IsAccountOf who
            (email_for sdk none (codes "good") 3 sample who)
            3
            sample
            (sign_in sdk none (codes "good") 3 sample true))
sign_in_verified_example = sign_in_verified sdk none (codes "good") 3 sample true

-- Bob's profile has his email.
bob_returned : (sign_in sdk none (codes "good") 3 sample true).0 ≡ ok bob
unfolding verify_id_token resolve_email login_with_id_token login_tx update_user text_eq
    to_lower_case trim
bob_returned = refl

-- The address that the provider's profile has.
profile_email : resolve_email sdk true (codes "h-2") ≡ some (codes "bob@x.org")
unfolding resolve_email
profile_email = refl

newlines : normalized (codes "a\\nb\\\\nc") ≡ codes "a\nb\\\nc"
unfolding normalized
newlines = refl

-- Every setting is the text of a key.
abbrev hex_env : Env
hex_env k = some (codes "00112233445566778899aAbBcCdDeEfF00112233445566778899aabbccddeeff")

assert_env_settings_example :
    All (IsSetting hex_env) required
    × ((key : Text) × (cipher_key hex_env ≡ ok key) × (length key ≡ 32))
unfolding assert_env
assert_env_settings_example = assert_env_settings hex_env refl

abbrev address : Address
address = record {
  protocol = codes "rediss:";
  hostname = codes "r";
  port = none;
  username = [];
  password = codes "p";
}

redis_defaults :
    redis_connection_options (λ t. ok address) hex_env
    ≡ ok (record {
      host = codes "r";
      port = 6379;
      username = none;
      password = some (codes "p");
      tls = true;
    })
unfolding redis_connection_options text_eq
redis_defaults = refl

delays : (retry_delay 3 ≡ 600) × (retry_delay 11 ≡ 2000)
unfolding retry_delay
delays = (refl, refl)

two_origins :
    origins (λ k. some (codes "https://a, ,https://b"))
    ≡ ok (codes "https://a" ∷ codes "https://b" ∷ [])
unfolding origins trim
two_origins = refl
