-- ===== src/Config.antt =====
-- src/config.ts, and what src/redis/redis.util.ts, src/main.ts, src/health.controller.ts and
-- src/keys/crypto.ts read of the environment. The parsing of an address is a parameter.
pub mod Booted
use micro_manus_services.Base.{
  ℕ, zero, suc, ◌+◌, ◌-◌, ◌*◌, ◌/◌, ◌%◌, ◌≤◌, ◌<◌, max, String, ⊤, ◌≡◌, refl, sym, ap, ◌∙◌, ◌≢◌,
  ◌⊎◌, inl, inr, Bool, true, false, not, ◌&&◌, ◌||◌, Option, none, some, List, [], ◌∷◌, ◌++◌, map,
  reverse, arith, ltb, leb, ◌==◌, if◌then◌else◌, ltb→lt, lt→ltb, leb→le, ==_iff, tests, Bool-cases,
  Option-cases, is_some, Text, codes, length, take, drop, head?, last?, keep, find, any, all,
  update_where, update_where-none, length-append, length-take-le, All, All-append, All-map, text_eq,
}
use micro_manus_services.Base.Chars.{trim}
use micro_manus_services.Db.{Result, ok, err, Error, http, other}

-- `process.env`
abbrev pub Env : Type 0
Env = Text → Option Text

abbrev pub required : List Text
required =
    codes "DATABASE_URL"
    ∷ codes "REDIS_URL"
    ∷ codes "JWT_SECRET"
    ∷ codes "ENCRYPTION_KEY"
    ∷ codes "APP_URL"
    ∷ codes "FIREBASE_PROJECT_ID"
    ∷ codes "FIREBASE_CLIENT_EMAIL"
    ∷ codes "FIREBASE_PRIVATE_KEY"
    ∷ []

abbrev pub is_set : Option Text → Bool
is_set none = false
is_set (some []) = false
is_set (some (c ∷ cs)) = true

abbrev pub missing : Env → List Text
missing e = keep (λ k. not (is_set (e k))) required

abbrev join_commas : List Text → Text
join_commas [] = []
join_commas (t ∷ []) = t
join_commas (t ∷ u ∷ ts) = t ++ (codes ", " ++ join_commas (u ∷ ts))

unfoldable pub is_hex : ℕ → Bool
is_hex c = leb 48 c && leb c 57 || (leb 97 c && leb c 102 || leb 65 c && leb c 70)

-- `/^[0-9a-f]{64}$/i`
abbrev pub is_key : Text → Bool
is_key t = all is_hex t && length t == 64

abbrev pub or_empty : Option Text → Text
or_empty none = []
or_empty (some t) = t

abbrev pub key_checked : Bool → Result ⊤
key_checked true = ok tt
key_checked false = err (other none (codes "ENCRYPTION_KEY must be 64 hex chars (32 bytes)"))

abbrev pub asserted : Env → List Text → Result ⊤
asserted e [] = key_checked (is_key (or_empty (e (codes "ENCRYPTION_KEY"))))
asserted e (k ∷ ks) = err (other none (codes "Missing required env vars: " ++ join_commas (k ∷ ks)))

unfoldable pub assert_env : Env → Result ⊤
unfolding is_hex
assert_env e = asserted e (missing e)

abbrev pub found_or : Text → Option Text → Result Text
found_or key none = err (other none (codes "Missing env var: " ++ key))
found_or key (some v) = ok v

abbrev pub or_fallback : Option Text → Option Text → Option Text
or_fallback none fallback = fallback
or_fallback (some v) fallback = some v

unfoldable pub env : Env → Text → Option Text → Result Text
env e key fallback = found_or key (or_fallback (e key) fallback)

abbrev hex_value : ℕ → ℕ
hex_value c = if leb c 57 then c - 48 else if leb c 70 then c - 55 else c - 87

-- `Buffer.from(text, 'hex')`, which stops at the first pair that is not one of hexadecimal digits.
unfoldable pub from_hex : Text → Text
unfolding is_hex
from_hex [] = []
from_hex (c ∷ []) = []
from_hex (c ∷ d ∷ cs) =
    let rest = from_hex cs in
    if is_hex c && is_hex d then (hex_value c * 16 + hex_value d) ∷ rest else []

unfoldable pub hex_result : Result Text → Result Text
unfolding from_hex
hex_result (ok t) = ok (from_hex t)
hex_result (err e) = err e

-- `key()` of the cipher
unfoldable pub cipher_key : Env → Result Text
unfolding env hex_result
cipher_key e = hex_result (env e (codes "ENCRYPTION_KEY") none)

pub record Address : Type 0 where
  pub protocol : Text
  pub hostname : Text
  pub port : Option ℕ
  pub username : Text
  pub password : Text

pub record RedisOptions : Type 0 where
  pub host : Text
  pub port : ℕ
  pub username : Option Text
  pub password : Option Text
  pub tls : Bool

abbrev unless_empty : Text → Option Text
unless_empty [] = none
unless_empty (c ∷ cs) = some (c ∷ cs)

-- `Number(url.port || 6379)`
abbrev port_or_default : Option ℕ → ℕ
port_or_default none = 6379
port_or_default (some p) = p

abbrev options_of : Address → RedisOptions
options_of a = record {
  host = a.hostname;
  port = port_or_default a.port;
  username = unless_empty a.username;
  password = unless_empty a.password;
  tls = text_eq a.protocol (codes "rediss:");
}

abbrev parsed : (Text → Result Address) → Result Text → Result RedisOptions
parsed parse_url (err e) = err e
parsed parse_url (ok t) = elim (parse_url t) [ ok a ↦ ok (options_of a) | err e ↦ err e ]

unfoldable pub redis_connection_options : (Text → Result Address) → Env → Result RedisOptions
unfolding env
redis_connection_options parse_url e = parsed parse_url (env e (codes "REDIS_URL") none)

-- `retryStrategy`, in milliseconds.
unfoldable pub retry_delay : ℕ → ℕ
retry_delay times = if leb (times * 200) 2000 then times * 200 else 2000

-- `.split(',')`
abbrev pub push_char : ℕ → List Text → List Text
push_char c [] = (c ∷ []) ∷ []
push_char c (t ∷ ts) = (c ∷ t) ∷ ts

pub split_commas : Text → List Text
split_commas [] = [] ∷ []
split_commas (c ∷ cs) =
    let rest = split_commas cs in if c == 44 then [] ∷ rest else push_char c rest

abbrev is_filled : Text → Bool
is_filled [] = false
is_filled (c ∷ cs) = true

abbrev origins_in : Result Text → Result (List Text)
unfolding split_commas trim
origins_in (err e) = err e
origins_in (ok t) = ok (keep is_filled (map trim (split_commas t)))

-- The origins that `bootstrap` allows.
unfoldable pub origins : Env → Result (List Text)
unfolding env origins_in
origins e = elim (e (codes "CORS_ORIGINS")) [
  | some t ↦ origins_in (ok t)
  | none ↦ origins_in (env e (codes "APP_URL") none)
]

-- The handler `health`, given what the ping of the database gives.
unfoldable pub health : Result ⊤ → Result ⊤
health (ok a) = ok tt
health (err e) = err (http 503 (codes "down"))
