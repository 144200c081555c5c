-- ===== src/Auth/Cookies/Lifecycle.antt =====
-- A session of src/auth/auth.controller.ts from the sign-in to the sign-out.
use micro_manus_services.Base.{
  ℕ, ◌+◌, ◌≤◌, ⊤, ◌≡◌, refl, sym, ap, ◌∙◌, true, false, Option, none, some, List, [], ◌∷◌, arith,
  Text,
}
use mathlib.Core.Path.{subst}
use micro_manus_services.Auth.Sessions.{
  kill, expired, unauthorized, revoke_session, SessionRow, session_ttl_ms, is_blank, is_session_id,
  cookie, create_session, rotate_session,
}
use micro_manus_services.Auth.Rotation.{revoke_id-cookie}
use micro_manus_services.Auth.Tokens.{revoke_session-rotate, create_session-rotate}
use micro_manus_services.Auth.Cookies.{
  clear_cookie, signed_out, logout, can_activate, CookiePolicy, CookieName, Jar, store, AuthState,
  Answer, set_cookie, set_auth_cookies, session, signed_in, renewed, refreshed, refresh_with,
  refresh_session, check_access,
}
use micro_manus_services.Db.{Error, Db, Query, Result, ok, err, UserRow}
use micro_manus_services.Keys.Accepted.{injected}

module _ (policy : CookiePolicy) (sign : ℕ → Text) (verify : Text → Option ℕ) (hash : Text → Text)
    (parse_uuid : Text → Option Text) where
  -- An access token is a text, and says whom it was signed for while it is valid.
  pub record Signs (user : ℕ) : Type 0 where
    pub filled : is_blank (sign user) ≡ false
    pub verified : verify (sign user) ≡ some user

  abbrev signing : Query UserRow → (id token : Text) → ℕ → AuthState → Answer UserRow
  signing = session policy sign hash parse_uuid

  abbrev refreshing : Jar → Text → ℕ → AuthState → Answer ⊤
  refreshing = refresh_session policy sign hash parse_uuid

  abbrev leaving : Jar → AuthState → Answer ⊤
  leaving = logout policy sign hash parse_uuid

  check-sign : (user : ℕ) → Signs user → check_access verify (some (sign user)) ≡ ok user
  check-sign user h = go (sign user) h.filled h.verified
    where
      go :
          (t : Text)
          → is_blank t ≡ false
          → verify t ≡ some user
          → check_access verify (some t) ≡ ok user
      go [] b v = cc
      go (c ∷ cs) b v = rw v refl

  -- A cookie with a well-formed key is not empty.
  refresh-cookie :
      (id token next : Text) (now : ℕ) (s : AuthState)
      → is_session_id id ≡ true
      → refresh_with policy sign hash parse_uuid (some (cookie id token)) next now s
        ≡ refreshed policy sign hash parse_uuid s.db
            (rotate_session hash parse_uuid next now (cookie id token) s.sessions)
  unfolding refresh_with
  refresh-cookie [] token next now s h = absurd (ground arith)
  refresh-cookie (c ∷ cs) token next now s h = refl

  renewed-cookie :
      (id next : Text)
      → is_session_id id ≡ true
      → renewed policy sign hash parse_uuid (some (cookie id next))
        ≡ set_cookie policy sign CookieName.refresh (cookie id next) ∷ []
  unfolding renewed
  renewed-cookie [] next h = absurd (ground arith)
  renewed-cookie (c ∷ cs) next h = refl

  -- The browser after a refresh with a cookie whose rotation gives a new one.
  refreshed-jar :
      (user : ℕ) (id next : Text) (d : Db) (x : Result (ℕ × Option Text) × List SessionRow)
      (j : Jar)
      → is_session_id id ≡ true
      → x.0 ≡ ok (user, some (cookie id next))
      → ((refreshed policy sign hash parse_uuid d x).result ≡ ok tt)
        × (store (refreshed policy sign hash parse_uuid d x).cookies j
            ≡ record { access = some (sign user); refresh = some (cookie id next) })
  unfolding refreshed set_cookie
  refreshed-jar user id next d (err e, ss) j h q = absurd cc
  refreshed-jar user id next d (ok (v, new), ss) j h q =
      subst
        (λ (p : ℕ × Option Text).
          ((refreshed policy sign hash parse_uuid d (ok p, ss)).result ≡ ok tt)
          × (store (refreshed policy sign hash parse_uuid d (ok p, ss)).cookies j
              ≡ record { access = some (sign user); refresh = some (cookie id next) }))
        (sym (injected q)) (refl, rw (renewed-cookie id next h) refl)

  refreshed-err :
      (d : Db) (x : Result (ℕ × Option Text) × List SessionRow) {e : Error}
      → x.0 ≡ err e
      → (refreshed policy sign hash parse_uuid d x).result ≡ err e
  unfolding refreshed
  refreshed-err d (err e, ss) h = cc
  refreshed-err d (ok p, ss) h = cc

  module _ (login : Query UserRow) (id token next : Text) (now : ℕ) (s : AuthState) (u : UserRow)
      (d : Db) (j : Jar) (logged_in : login s.db ≡ (ok u, d)) (shape : is_session_id id ≡ true)
      (parsed : parse_uuid id ≡ some id) (full : is_blank token ≡ false)
      (full' : is_blank next ≡ false) (signs : Signs u.id) where
    abbrev start : Answer UserRow
    start = signing login id token now s

    abbrev jar1 : Jar
    jar1 = store start.cookies j

    start_jar : jar1 ≡ record { access = some (sign u.id); refresh = some (cookie id token) }
    unfolding session signed_in set_auth_cookies create_session set_cookie
    start_jar = rw logged_in refl

    started : start.result ≡ ok u
    unfolding session signed_in
    started = rw logged_in refl

    start_sessions :
        start.state.sessions ≡ (create_session hash parse_uuid u.id id token now s.sessions).1
    unfolding session signed_in create_session
    start_sessions = rw logged_in refl

    refreshing_lem :
        (now' : ℕ)
        → now' ≤ now + session_ttl_ms
        → ((refreshing jar1 next now' start.state).result ≡ ok tt)
          × (store (refreshing jar1 next now' start.state).cookies jar1
              ≡ record { access = some (sign u.id); refresh = some (cookie id next) })
    unfolding refresh_session create_session
    refreshing_lem now' soon = rw start_jar (
        rw (refresh-cookie id token next now' start.state shape) (
          refreshed-jar u.id id next start.state.db
            (rotate_session hash parse_uuid next now' (cookie id token) start.state.sessions) _
            shape
            (ap (λ ss. (rotate_session hash parse_uuid next now' (cookie id token) ss).0)
                start_sessions
              ∙ create_session-rotate hash parse_uuid u.id id token next now now' s.sessions shape
                  parsed full soon)))

    revoked :
        (s2 : AuthState)
        → revoke_session hash parse_uuid (some (cookie id next)) s2.sessions
          ≡ (ok tt, kill id s2.sessions)
    unfolding revoke_session
    revoked s2 = rw (revoke_id-cookie id next shape) (rw shape (rw parsed refl))

    abbrev jar2 : Jar
    jar2 = record { access = some (sign u.id); refresh = some (cookie id next) }

    -- A sign-out with a cookie of the session.
    leaving_lem :
        (s2 : AuthState)
        → leaving jar2 s2 ≡ record {
          result = ok tt;
          cookies =
              clear_cookie policy sign CookieName.access
              ∷ clear_cookie policy sign CookieName.refresh
              ∷ [];
          state = record { db = s2.db; sessions = kill id s2.sessions };
        }
    unfolding logout signed_out
    leaving_lem s2 = rw (revoked s2) refl

    left_jar :
        (s2 : AuthState)
        → store (leaving jar2 s2).cookies jar2 ≡ record { access = none; refresh = none }
    unfolding clear_cookie
    left_jar s2 = rw (leaving_lem s2) refl

    -- No cookie of the session is good for a refresh then.
    refused :
        (other later : Text) (now2 : ℕ) (s2 : AuthState) (held : Option Text)
        → is_blank other ≡ false
        → (refreshing
            (record { access = held; refresh = some (cookie id other) })
            later
            now2
            (leaving jar2 s2).state).result
          ≡ err expired
    unfolding refresh_session
    refused other later now2 s2 held b = rw (leaving_lem s2) (
        rw
          (refresh-cookie id other later now2
            (record { db = s2.db; sessions = kill id s2.sessions }) shape)
          (refreshed-err s2.db _ (
            ap
              (λ (x : Result ⊤ × List SessionRow).
                (rotate_session hash parse_uuid later now2 (cookie id other) x.1).0)
              (sym (revoked s2))
            ∙ revoke_session-rotate hash parse_uuid id next other later now2 id s2.sessions shape
                parsed b)))

    -- After a sign-in, requests with the browser's cookies are the user's. A refresh before the
    -- session expires succeeds, and gives cookies that are the user's again. After a sign-out with
    -- these, whatever the sessions are by then, the browser has no cookie, its requests are
    -- refused, and neither the last nor the first refresh cookie is good for a refresh.
    pub session_lifecycle :
        (now' : ℕ) (later : Text) (now2 : ℕ) (s2 : AuthState)
        → now' ≤ now + session_ttl_ms
        → (start.result ≡ ok u)
          × (can_activate verify jar1 ≡ ok u.id)
          × ((refreshing jar1 next now' start.state).result ≡ ok tt)
          × (store (refreshing jar1 next now' start.state).cookies jar1 ≡ jar2)
          × (can_activate verify jar2 ≡ ok u.id)
          × ((leaving jar2 s2).result ≡ ok tt)
          × (can_activate verify (store (leaving jar2 s2).cookies jar2) ≡ err unauthorized)
          × ((refreshing jar2 later now2 (leaving jar2 s2).state).result ≡ err expired)
          × ((refreshing jar1 later now2 (leaving jar2 s2).state).result ≡ err expired)
    unfolding can_activate
    session_lifecycle now' later now2 s2 soon = (
      started,
      rw start_jar (check-sign u.id signs),
      (refreshing_lem now' soon).0,
      (refreshing_lem now' soon).1,
      check-sign u.id signs,
      ap (λ (a : Answer ⊤). a.result) (leaving_lem s2),
      rw (left_jar s2) refl,
      refused next later now2 s2 (some (sign u.id)) full',
      rw start_jar (refused token later now2 s2 (some (sign u.id)) full),
    )
