-- ===== src/Auth/Sessions.antt =====
-- Refresh sessions: `createSession`, `rotateSession` and `revokeSession` of
-- src/auth/auth.service.ts, over the rows of the table `sessions`. The keyed hash of a token and
-- the reading of a uuid by Postgres are parameters, and fresh keys, random tokens and the time in
-- milliseconds are arguments. That the sessions of a deleted user go with it is left out.
use micro_manus_services.Base.{
  ℕ, ◌+◌, ◌-◌, ⊤, Bool, true, false, not, ◌&&◌, ◌||◌, Option, none, some, List, [], ◌∷◌, ◌++◌, ltb,
  leb, ◌==◌, if◌then◌else◌, Text, codes, length, keep, find, all, update_where, text_eq,
}
use micro_manus_services.Db.{Result, ok, err, Error, http, pg, SqlState}

pub record SessionRow : Type 0 where
  pub id : Text
  pub user_id : ℕ
  pub refresh_hash : Text
  pub prev_hash : Option Text
  pub rotated_at : Option ℕ
  pub expires_at : ℕ

abbrev pub refresh_grace_ms : ℕ
refresh_grace_ms = 30000

-- `interval '7 days'`
abbrev pub session_ttl_ms : ℕ
session_ttl_ms = 604800000

abbrev pub dot : ℕ
dot = 46

-- `${sessionId}.${token}`
abbrev pub cookie : Text → Text → Text
cookie id token = id ++ dot ∷ token

abbrev pub push_first : ℕ → Option (Text × Text) → Option (Text × Text)
push_first c none = none
push_first c (some (before, after)) = some (c ∷ before, after)

-- The text before the first dot, and the text behind it.
abbrev pub split_dot : Text → Option (Text × Text)
split_dot [] = none
split_dot (c ∷ cs) = if c == dot then some ([], cs) else push_first c (split_dot cs)

-- `slice(0, -1)`
abbrev pub drop_last : Text → Text
drop_last [] = []
drop_last (c ∷ []) = []
drop_last (c ∷ d ∷ ds) = c ∷ drop_last (d ∷ ds)

-- With no dot, `indexOf` is -1, and the two calls of `slice` are `slice(0, -1)` and `slice(0)`.
abbrev pub parts_or : Text → Option (Text × Text) → Text × Text
parts_or t none = (drop_last t, t)
parts_or t (some p) = p

abbrev pub rotate_parts : Text → Text × Text
rotate_parts t = parts_or t (split_dot t)

-- `split('.')[0]`
abbrev pub before_or : Text → Option (Text × Text) → Text
before_or t none = t
before_or t (some (before, after)) = before

abbrev pub revoke_id : Text → Text
revoke_id t = before_or t (split_dot t)

-- `/^[0-9a-f-]{36}$/`
abbrev pub is_id_char : ℕ → Bool
is_id_char c = (leb 48 c && leb c 57) || (leb 97 c && leb c 102) || c == 45

abbrev pub is_session_id : Text → Bool
is_session_id t = length t == 36 && all is_id_char t

abbrev pub is_session : Text → SessionRow → Bool
is_session id s = text_eq s.id id

abbrev pub is_blank : Text → Bool
is_blank [] = true
is_blank (c ∷ cs) = false

abbrev pub unauthorized : Error
unauthorized = http 401 (codes "Unauthorized")

abbrev pub expired : Error
expired = http 401 (codes "Session expired")

abbrev pub same_hash : Option Text → Text → Bool
same_hash none t = false
same_hash (some h) t = text_eq h t

abbrev pub recent : Option ℕ → ℕ → Bool
recent none now = false
recent (some t) now = ltb (now - t) refresh_grace_ms

-- The rows after `DELETE FROM sessions WHERE id = $1`.
abbrev pub kill : Text → List SessionRow → List SessionRow
kill id ss = keep (λ s. not (is_session id s)) ss

module _ (hash : Text → Text) (parse_uuid : Text → Option Text) where
  abbrev pub new_session : ℕ → Text → Text → ℕ → SessionRow
  new_session user id token now = record {
    id = id;
    user_id = user;
    refresh_hash = hash token;
    prev_hash = none;
    rotated_at = none;
    expires_at = now + session_ttl_ms;
  }

  -- The row and the cookie of a new session.
  unfoldable pub create_session : ℕ → Text → Text → ℕ → List SessionRow → Text × List SessionRow
  create_session user id token now ss = (cookie id token, new_session user id token now ∷ ss)

  abbrev pub rotated : Text → ℕ → SessionRow → SessionRow
  rotated next now s = record s {
    prev_hash = some s.refresh_hash;
    rotated_at = some now;
    refresh_hash = hash next;
    expires_at = now + session_ttl_ms;
  }

  module _ (next : Text) (now : ℕ) where
    -- A live row: the current token, the one before it, or neither.
    abbrev pub check_token :
        Text → Text → SessionRow → List SessionRow → Result (ℕ × Option Text) × List SessionRow
    check_token id token s ss =
        if text_eq (hash token) s.refresh_hash
        then (
          ok (s.user_id, some (cookie id next)),
          update_where (is_session s.id) (rotated next now) ss,
        )
        else if same_hash s.prev_hash (hash token) && recent s.rotated_at now
        then (ok (s.user_id, none), ss)
        else (err unauthorized, kill s.id ss)

    abbrev pub check_session :
        Text
        → Text
        → Option SessionRow
        → List SessionRow
        → Result (ℕ × Option Text) × List SessionRow
    check_session id token none ss = (err expired, ss)
    check_session id token (some s) ss =
        if ltb s.expires_at now then (err expired, kill s.id ss) else check_token id token s ss

    abbrev pub look_up :
        Text → Text → Option Text → List SessionRow → Result (ℕ × Option Text) × List SessionRow
    look_up id token none ss = (err (pg SqlState.invalid_text_representation), ss)
    look_up id token (some key) ss = check_session id token (find (is_session key) ss) ss

    unfoldable pub rotate_session :
        Text → List SessionRow → Result (ℕ × Option Text) × List SessionRow
    rotate_session cookie_val ss =
        let (id, token) = rotate_parts cookie_val in
        if not (is_session_id id) || is_blank token
        then (err unauthorized, ss)
        else look_up id token (parse_uuid id) ss

  abbrev pub revoke_key : Option Text → List SessionRow → Result ⊤ × List SessionRow
  revoke_key none ss = (err (pg SqlState.invalid_text_representation), ss)
  revoke_key (some key) ss = (ok tt, kill key ss)

  unfoldable pub revoke_session : Option Text → List SessionRow → Result ⊤ × List SessionRow
  revoke_session none ss = (ok tt, ss)
  revoke_session (some cookie_val) ss =
      if is_session_id (revoke_id cookie_val)
      then revoke_key (parse_uuid (revoke_id cookie_val)) ss
      else (ok tt, ss)
