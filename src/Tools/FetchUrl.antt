-- ===== src/Tools/FetchUrl.antt =====
-- src/tools/fetch-url.tool.ts: fetching a page behind a guard against private addresses. The
-- parsing of URLs, `isIP`, the lookup of a name, `fetch` and the text of an HTML page are
-- parameters.
use micro_manus_services.Base.{
  ℕ, zero, suc, ◌+◌, ◌-◌, ◌*◌, Bool, false, ◌&&◌, ◌||◌, Option, none, some, List, [], ◌∷◌, ltb, leb,
  ◌==◌, if◌then◌else◌, Text, codes, length, take, drop, any, all, text_eq, ◌++◌, ◌/◌, ◌%◌,
}
use micro_manus_services.Base.Chars.{to_lower_case}
use micro_manus_services.Db.{Result, ok, err, Error, http}

-- What the tool reads of a `URL`.
pub record Url : Type 0 where
  pub protocol : Text
  pub hostname : Text
  pub href : Text

pub record Page : Type 0 where
  pub status : ℕ
  pub location : Option Text
  pub content_type : Option Text
  pub body : Result Text

abbrev pub starts_with : Text → Text → Bool
starts_with prefix t = text_eq (take (length prefix) t) prefix

abbrev pub contains_char : ℕ → Text → Bool
contains_char c t = any (λ x. x == c) t

-- `ct.includes('html')`
unfoldable pub includes : Text → Text → Bool
includes part [] = text_eq part []
includes part (c ∷ cs) = starts_with part (c ∷ cs) || includes part cs

abbrev pub is_digit : ℕ → Bool
is_digit c = leb 48 c && leb c 57

abbrev pub push_head : ℕ → List Text → List Text
push_head c [] = (c ∷ []) ∷ []
push_head c (p ∷ ps) = (c ∷ p) ∷ ps

-- `ip.split('.')`
unfoldable pub split_dots : Text → List Text
split_dots [] = [] ∷ []
split_dots (c ∷ cs) = if c == 46 then [] ∷ split_dots cs else push_head c (split_dots cs)

unfoldable pub digits_value : ℕ → Text → ℕ
digits_value n [] = n
digits_value n (c ∷ cs) = digits_value (n * 10 + (c - 48)) cs

-- `Number` of a part of an address, which is made of digits.
abbrev pub number : Text → ℕ
number t = digits_value 0 t

-- /::ffff:(\d+\.\d+\.\d+\.\d+)$/
abbrev is_number : Text → Bool
is_number [] = false
is_number (c ∷ cs) = all is_digit (c ∷ cs)

abbrev pub is_dotted : List Text → Bool
is_dotted (a ∷ b ∷ c ∷ d ∷ []) = is_number a && is_number b && is_number c && is_number d
is_dotted _ = false

unfoldable pub mapped : Text → Option Text
unfolding split_dots
mapped [] = none
mapped (c ∷ cs) =
    let rest = mapped cs in
    if starts_with (codes "::ffff:") (c ∷ cs) && is_dotted (split_dots (drop 7 (c ∷ cs)))
    then some (drop 7 (c ∷ cs))
    else rest

-- The ranges of IPv4 that are refused, by the first two numbers.
abbrev pub private_pair : ℕ → ℕ → Bool
private_pair a b =
    a == 127
    || a == 10
    || a == 0
    || (a == 172 && leb 16 b && leb b 31)
    || (a == 192 && b == 168)
    || (a == 169 && b == 254)

abbrev pub private_parts : List Text → Bool
private_parts (a ∷ b ∷ ps) = private_pair (number a) (number b)
private_parts (a ∷ []) = number a == 127 || number a == 10 || number a == 0
private_parts [] = false

unfoldable pub is_private_v4 : Text → Bool
unfolding split_dots digits_value
is_private_v4 ip = private_parts (split_dots ip)

abbrev pub private_v6 : Text → Option Text → Bool
private_v6 low (some v4) = is_private_v4 v4
private_v6 low none =
    text_eq low (codes "::1")
    || text_eq low (codes "::")
    || starts_with (codes "fe80") low
    || starts_with (codes "fc") low
    || starts_with (codes "fd") low

-- `isPrivate`
unfoldable pub is_private : Text → Bool
unfolding is_private_v4 mapped
is_private ip =
    if contains_char 58 ip
    then private_v6 (to_lower_case ip) (mapped (to_lower_case ip))
    else is_private_v4 ip

abbrev pub max_chars : ℕ
max_chars = 8000

abbrev bad_request : Text → Error
bad_request t = http 400 t

-- What the tool calls and does not implement. `resolve_url` is `new URL(location, url).toString()`.
pub record Net : Type 0 where
  pub parse_url : Text → Option Url
  pub resolve_url : Text → Url → Result Text
  pub is_ip : Text → Bool
  pub lookup : Text → Result (List Text)
  pub fetch : Url → Result Page
  pub html_to_text : Text → Text

module _ (net : Net) where
  open net use {parse_url, resolve_url, is_ip, lookup, fetch, html_to_text}

  abbrev pub addresses : Text → Result (List Text)
  addresses host = if is_ip host then ok (host ∷ []) else lookup host

  abbrev pub is_web : Url → Bool
  is_web u = text_eq u.protocol (codes "http:") || text_eq u.protocol (codes "https:")

  abbrev pub check_addresses : Url → Result (List Text) → Result Url
  check_addresses u (err e) = err e
  check_addresses u (ok ips) =
      if any is_private ips
      then err (bad_request (codes "URL resolves to a private address"))
      else ok u

  abbrev pub check_url : Option Url → Result Url
  check_url none = err (bad_request (codes "Invalid URL"))
  check_url (some u) =
      if is_web u
      then check_addresses u (addresses u.hostname)
      else err (bad_request (codes "Only http(s) URLs are allowed"))

  -- `assertPublicHttpUrl`
  unfoldable pub assert_public : Text → Result Url
  unfolding is_private
  assert_public raw = check_url (parse_url raw)

  -- The URLs that have been fetched, in order, and the last page with its URL.
  abbrev pub Trace : Type 0
  Trace = List Url × Result (Url × Page)

  abbrev pub visited : Url → Trace → Trace
  visited u (us, r) = (u ∷ us, r)

  abbrev pub redirects : Page → Bool
  redirects p = leb 300 p.status && ltb p.status 400

  -- `if (!location …) break; url = await assertPublicHttpUrl(new URL(location, url)…)`
  abbrev pub then_assert : Result Text → Result Url
  then_assert (err e) = err e
  then_assert (ok t) = assert_public t

  abbrev pub then_next : (Url → Trace) → Result Url → Trace
  then_next next (err e) = ([], err e)
  then_next next (ok v) = next v

  abbrev pub follow : (Url → Trace) → Url → Page → Option Text → Trace
  follow next u p none = ([], ok (u, p))
  follow next u p (some []) = ([], ok (u, p))
  follow next u p (some (c ∷ cs)) = then_next next (then_assert (resolve_url (c ∷ cs) u))

  abbrev pub on_page : (Url → Trace) → Url → Result Page → Trace
  on_page next u (err e) = ([], err e)
  on_page next u (ok p) = if redirects p then follow next u p p.location else ([], ok (u, p))

  abbrev pub last_page : Url → Result Page → Trace
  last_page u (err e) = ([], err e)
  last_page u (ok p) = ([], ok (u, p))

  -- The loop, by the redirects that may still be followed.
  unfoldable pub hops : ℕ → Url → Trace
  unfolding assert_public
  hops zero u = visited u (last_page u (fetch u))
  hops (suc n) u = visited u (on_page (hops n) u (fetch u))

  abbrev pub start : Result Url → Trace
  start (err e) = ([], err e)
  start (ok u) = hops 5 u

  -- All requests of the tool for one argument.
  unfoldable pub requests : Text → Trace
  unfolding hops
  requests raw = start (assert_public raw)

  abbrev pub page_text : Option Text → Text → Text
  page_text none raw = raw
  page_text (some ct) raw = if includes (codes "html") ct then html_to_text raw else raw

  -- A text that is too long is cut, and says so.
  abbrev pub clip : Text → Text
  clip t = take max_chars t ++ (if ltb max_chars (length t) then codes "\n…[truncated]" else [])

  abbrev pub content_of : Page → Result Text → Result Text
  content_of p (err e) = err e
  content_of p (ok body) = ok (clip (page_text p.content_type (take 500000 body)))

  abbrev pub failed_content : ℕ → Text
  failed_content s =
      codes "Fetch failed: HTTP " ++ ((48 + s / 100) ∷ (48 + s / 10 % 10) ∷ (48 + s % 10) ∷ [])

  abbrev pub answered : Result (Url × Page) → Result Text
  answered (err e) = err e
  answered (ok (u, p)) =
      if leb 200 p.status && leb p.status 299
      then content_of p p.body
      else ok (failed_content p.status)

  -- The content that `execute` gives to the model. A status has three digits.
  unfoldable pub fetch_content : Text → Result Text
  unfolding requests
  fetch_content raw = answered (requests raw).1
