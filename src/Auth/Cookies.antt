-- ===== src/Auth/Cookies.antt =====
-- src/auth/auth.controller.ts and src/auth/jwt.guard.ts: signing in, refreshing and signing out by
-- cookies, and the check of a request. The signing and the verification of access tokens are
-- parameters. The browser sends what it was last set; expiry by `maxAge` and the limits on the rate
-- of requests are left out.
pub mod Lifecycle
use micro_manus_services.Base.{
  ℕ, zero, suc, ◌+◌, ◌-◌, ◌*◌, ◌/◌, ◌%◌, ◌≤◌, ◌<◌, max, String, ⊤, ◌≡◌, refl, sym, ap, ◌∙◌, ◌≢◌,
  ◌⊎◌, inl, inr, Bool, true, false, not, ◌&&◌, ◌||◌, Option, none, some, List, [], ◌∷◌, ◌++◌, map,
  reverse, arith, ltb, leb, ◌==◌, if◌then◌else◌, ltb→lt, lt→ltb, leb→le, ==_iff, tests, Bool-cases,
  Option-cases, is_some, Text, codes, length, take, drop, head?, last?, keep, find, any, all,
  update_where, update_where-none, length-append, length-take-le, All, All-append, All-map, text_eq,
}
use micro_manus_services.Db.{Db, Query, Result, ok, err, Error, http, UserRow}
use micro_manus_services.Auth.Sessions.{
  SessionRow, session_ttl_ms, unauthorized, is_blank, create_session, rotate_session,
  revoke_session,
}

abbrev access_ttl_ms : ℕ
access_ttl_ms = 900_000

pub data SameSite : Type 0 where
  lax strict unrestricted : SameSite

abbrev is_cross_site : SameSite → Bool
is_cross_site SameSite.unrestricted = true
is_cross_site SameSite.lax = false
is_cross_site SameSite.strict = false

-- `unrestricted` is the value "none". The environment: COOKIE_SAMESITE, and whether APP_URL starts
-- with https.
pub record CookiePolicy : Type 0 where
  pub same_site : SameSite
  pub https : Bool

pub record CookieOptions : Type 0 where
  pub same_site : SameSite
  pub secure : Bool
  pub path : Text

unfoldable cookie_options : CookiePolicy → Text → CookieOptions
cookie_options p path = record {
  same_site = p.same_site;
  secure = is_cross_site p.same_site || p.https;
  path = path;
}

pub data CookieName : Type 0 where
  access refresh : CookieName

abbrev path_of : CookieName → Text
path_of CookieName.access = codes "/"
path_of CookieName.refresh = codes "/api/auth"

abbrev max_age_of : CookieName → ℕ
max_age_of CookieName.access = access_ttl_ms
max_age_of CookieName.refresh = session_ttl_ms

-- A header `Set-Cookie`; a cleared cookie has no value.
pub record SetCookie : Type 0 where
  pub name : CookieName
  pub value : Option Text
  pub options : CookieOptions
  pub max_age : ℕ

-- The two cookies that a browser holds.
pub record Jar : Type 0 where
  pub access : Option Text
  pub refresh : Option Text

abbrev stored : CookieName → Option Text → Jar → Jar
stored CookieName.access v j = record j { access = v }
stored CookieName.refresh v j = record j { refresh = v }

abbrev pub store : List SetCookie → Jar → Jar
store [] j = j
store (c ∷ cs) j = store cs (stored c.name c.value j)

-- What the handlers act on.
pub record AuthState : Type 0 where
  pub db : Db
  pub sessions : List SessionRow

pub record Answer (A : Type 0) : Type 0 where
  pub result : Result A
  pub cookies : List SetCookie
  pub state : AuthState

module _ (policy : CookiePolicy) (sign : ℕ → Text) where
  unfoldable pub set_cookie : CookieName → Text → SetCookie
  unfolding cookie_options
  set_cookie n v = record {
    name = n;
    value = some v;
    options = cookie_options policy (path_of n);
    max_age = max_age_of n;
  }

  unfoldable pub clear_cookie : CookieName → SetCookie
  unfolding cookie_options
  clear_cookie n = record {
    name = n;
    value = none;
    options = cookie_options policy (path_of n);
    max_age = 0;
  }

  unfoldable pub set_auth_cookies : ℕ → Text → List SetCookie
  unfolding set_cookie
  set_auth_cookies user cookie =
      set_cookie CookieName.access (sign user) ∷ set_cookie CookieName.refresh cookie ∷ []

  module _ (hash : Text → Text) (parse_uuid : Text → Option Text) where
    abbrev pub signed_in :
        (id token : Text) → ℕ → List SessionRow → Result UserRow × Db → Answer UserRow
    unfolding create_session set_auth_cookies
    signed_in id token now ss (err e, d) = record {
      result = err e;
      cookies = [];
      state = record { db = d; sessions = ss };
    }
    signed_in id token now ss (ok u, d) =
        let (cookie, ss') = create_session hash parse_uuid u.id id token now ss in
        record {
          result = ok u;
          cookies = set_auth_cookies u.id cookie;
          state = record { db = d; sessions = ss' };
        }

    -- POST /auth/session; `login` is `loginWithIdToken` at the request's token.
    unfoldable pub session : Query UserRow → (id token : Text) → ℕ → AuthState → Answer UserRow
    unfolding signed_in
    session login id token now s = signed_in id token now s.sessions (login s.db)

    -- `if (newCookie) res.cookie(…)`
    abbrev pub renewed : Option Text → List SetCookie
    unfolding set_cookie
    renewed none = []
    renewed (some []) = []
    renewed (some (c ∷ cs)) = set_cookie CookieName.refresh (c ∷ cs) ∷ []

    abbrev pub refreshed : Db → Result (ℕ × Option Text) × List SessionRow → Answer ⊤
    unfolding set_cookie renewed
    refreshed d (err e, ss) = record {
      result = err e;
      cookies = [];
      state = record { db = d; sessions = ss };
    }
    refreshed d (ok (user, new), ss) = record {
      result = ok tt;
      cookies = set_cookie CookieName.access (sign user) ∷ renewed new;
      state = record { db = d; sessions = ss };
    }

    abbrev pub refresh_with : Option Text → (next : Text) → ℕ → AuthState → Answer ⊤
    unfolding refreshed rotate_session
    refresh_with none next now s = record { result = err unauthorized; cookies = []; state = s }
    refresh_with (some []) next now s = record {
      result = err unauthorized;
      cookies = [];
      state = s;
    }
    refresh_with (some (c ∷ cs)) next now s =
        refreshed s.db (rotate_session hash parse_uuid next now (c ∷ cs) s.sessions)

    -- POST /auth/refresh
    unfoldable pub refresh_session : Jar → (next : Text) → ℕ → AuthState → Answer ⊤
    unfolding refresh_with
    refresh_session j next now s = refresh_with j.refresh next now s

    abbrev pub signed_out : Db → Result ⊤ × List SessionRow → Answer ⊤
    unfolding clear_cookie
    signed_out d (err e, ss) = record {
      result = err e;
      cookies = [];
      state = record { db = d; sessions = ss };
    }
    signed_out d (ok a, ss) = record {
      result = ok tt;
      cookies = clear_cookie CookieName.access ∷ clear_cookie CookieName.refresh ∷ [];
      state = record { db = d; sessions = ss };
    }

    -- POST /auth/logout
    unfoldable pub logout : Jar → AuthState → Answer ⊤
    unfolding signed_out revoke_session
    logout j s = signed_out s.db (revoke_session hash parse_uuid j.refresh s.sessions)

abbrev verified_user : Option ℕ → Result ℕ
verified_user none = err unauthorized
verified_user (some user) = ok user

abbrev pub check_access : (Text → Option ℕ) → Option Text → Result ℕ
check_access verify none = err unauthorized
check_access verify (some []) = err unauthorized
check_access verify (some (c ∷ cs)) = verified_user (verify (c ∷ cs))

-- `canActivate` on a handler that is not public, with the user that it sets.
unfoldable pub can_activate : (Text → Option ℕ) → Jar → Result ℕ
can_activate verify j = check_access verify j.access
