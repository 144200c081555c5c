-- ===== src/Auth/Tokens.antt =====
-- Which refresh cookies work after which requests (`rotateSession` and `revokeSession` of
-- src/auth/auth.service.ts).
use micro_manus_services.Base.{
  ℕ, ◌+◌, ◌-◌, ◌≤◌, ◌<◌, ◌≡◌, refl, sym, ap, ◌∙◌, inl, inr, true, false, Option, none, some, List,
  ◌∷◌, arith, ltb, Bool-cases, Text, find, update_where, text_eq,
}
use micro_manus_services.Base.Texts.{text_eq_sound, text_eq_refl}
use micro_manus_services.Db.{Result, ok, err, Error}
use micro_manus_services.Auth.Sessions.{
  SessionRow, cookie, is_session_id, is_session, is_blank, unauthorized, expired, kill, rotated,
  check_session, rotate_session, revoke_session, create_session, new_session, session_ttl_ms,
  refresh_grace_ms,
}
use micro_manus_services.Auth.Rotation.{
  Current, rotate_session-Current, look_up-cookie, rotate_parts-cookie, revoke_id-cookie,
  find-is_session, find-kill, find-update,
}

module _ (hash : Text → Text) (parse_uuid : Text → Option Text) where
  abbrev rotating : Text → ℕ → Text → List SessionRow → Result (ℕ × Option Text) × List SessionRow
  rotating = rotate_session hash parse_uuid

  -- The cookie of a new session, with a well-formed key that is read as itself and a token that is
  -- not empty, is rotated for its user until the session expires.
  pub create_session-rotate :
      (user : ℕ) (id token next : Text) (now now' : ℕ) (ss : List SessionRow)
      → is_session_id id ≡ true
      → parse_uuid id ≡ some id
      → is_blank token ≡ false
      → now' ≤ now + session_ttl_ms
      → (rotating next now'
          (create_session hash parse_uuid user id token now ss).0
          (create_session hash parse_uuid user id token now ss).1).0
        ≡ ok (user, some (cookie id next))
  unfolding create_session
  create_session-rotate user id token next now now' ss shape parsed filled soon =
      rw
        (look_up-cookie hash parse_uuid next now' (cookie id token) id token id
          (new_session hash parse_uuid user id token now ∷ ss) (rotate_parts-cookie id token shape)
          shape filled parsed)
        (rw (text_eq_refl id) (rw live (rw (text_eq_refl (hash token)) refl)))
    where
      live : ltb (now + session_ttl_ms) now' ≡ false
      live = ground arith

  module _ (next : Text) (now : ℕ) (id token : Text) (ss : List SessionRow) (u : ℕ) (c' : Text)
      (shape : is_session_id id ≡ true)
      (h : (rotating next now (cookie id token) ss).0 ≡ ok (u, some c')) where
    cur : Current hash parse_uuid next now (cookie id token) ss
    cur = rotate_session-Current hash parse_uuid next now (cookie id token) ss u c' h

    both : ◌≡◌ {A = Text × Text} (cur.id, cur.token) (id, token)
    both = sym cur.parts ∙ rotate_parts-cookie id token shape

    given : (u ≡ cur.row.user_id) × (c' ≡ cookie id next)
    given = (
      ground (arith, h, cur.result),
      ground (arith, h, cur.result) ∙ ap (λ p. cookie p.0 next) both,
    )

    after : List SessionRow
    after = (rotating next now (cookie id token) ss).1

    renewed : SessionRow
    renewed = rotated hash parse_uuid next now cur.row

    key_eq : cur.row.id ≡ cur.key
    key_eq = text_eq_sound cur.row.id cur.key (find-is_session cur.key ss cur.row cur.found)

    parsed : parse_uuid id ≡ some cur.key
    parsed = ap (λ p. parse_uuid p.0) (sym both) ∙ cur.parsed

    filled : is_blank token ≡ false
    filled = ap (λ p. is_blank p.1) (sym both) ∙ cur.filled

    found_after : find (is_session cur.key) after ≡ some renewed
    unfolding after renewed
    found_after =
        ap (λ x. find (is_session cur.key) x.1) cur.result
        ∙ ap
            (λ k.
              find (is_session cur.key)
                (update_where (is_session k) (rotated hash parse_uuid next now) ss))
            key_eq
        ∙ find-update cur.key (rotated hash parse_uuid next now) ss cur.row (λ x. refl) cur.found

    -- Any cookie of this session is checked against the renewed row.
    check_after :
        (next' : Text) (now' : ℕ) (t : Text)
        → is_blank t ≡ false
        → rotating next' now' (cookie id t) after
          ≡ check_session hash parse_uuid next' now' id t (some renewed) after
    check_after next' now' t full =
        look_up-cookie hash parse_uuid next' now' (cookie id t) id t cur.key after
          (rotate_parts-cookie id t shape) shape full parsed
        ∙ ap (λ o. check_session hash parse_uuid next' now' id t o after) found_after

    -- The cookie that a rotation gives out, for a well-formed key and a new token that is not
    -- empty, works for seven days: it is rotated in turn, for the same user.
    pub rotate_session-again :
        (next' : Text) (now' : ℕ)
        → is_blank next ≡ false
        → now' ≤ now + session_ttl_ms
        → (rotating next' now' c' (rotating next now (cookie id token) ss).1).0
          ≡ ok (u, some (cookie id next'))
    unfolding after renewed
    rotate_session-again next' now' full soon = rw given.1 (
        rw (check_after next' now' next full)
          (rw live (rw (text_eq_refl (hash next)) (rw given.0 refl))))
      where
        live : ltb (now + session_ttl_ms) now' ≡ false
        live = ground arith

    same : text_eq cur.row.refresh_hash (hash token) ≡ true
    same =
        ap (λ p. text_eq cur.row.refresh_hash (hash p.1)) (sym both)
        ∙ rw (text_eq_sound (hash cur.token) cur.row.refresh_hash cur.current)
            (text_eq_refl cur.row.refresh_hash)

    -- A cookie of a well-formed key that has been rotated works for thirty more seconds: no new
    -- cookie is given out and nothing is written. The two tokens have different hashes.
    pub rotate_session_grace :
        (next' : Text) (now' : ℕ)
        → text_eq (hash token) (hash next) ≡ false
        → now' < now + refresh_grace_ms
        → rotating next' now' (cookie id token) (rotating next now (cookie id token) ss).1
          ≡ (ok (u, none), (rotating next now (cookie id token) ss).1)
    unfolding after renewed
    rotate_session_grace next' now' differ soon =
        check_after next' now' token filled
        ∙ rw live (rw differ (rw same (rw recent (rw given.0 refl))))
      where
        live : ltb (now + session_ttl_ms) now' ≡ false
        live = ground arith

        recent : ltb (now' - now) refresh_grace_ms ≡ true
        recent = ground arith

    killed :
        (next' : Text) (now' : ℕ)
        → text_eq (hash token) (hash next) ≡ false
        → now + refresh_grace_ms ≤ now'
        → (x : Error) × (rotating next' now' (cookie id token) after
            ≡ (err x, kill cur.row.id after))
    unfolding renewed
    killed next' now' differ late = elim (Bool-cases (ltb (now + session_ttl_ms) now')) [
      | inl over ↦ (expired, check_after next' now' token filled ∙ rw over refl)
      | inr live ↦ (
        unauthorized,
        check_after next' now' token filled ∙ rw live (rw differ (rw same (rw stale refl))),
      )
    ]
      where
        stale : ltb (now' - now) refresh_grace_ms ≡ false
        stale = ground arith

    -- A cookie of a well-formed key that has been rotated and is sent again thirty seconds later or
    -- more ends its session: the cookie that the rotation gave out, whose token is not empty and
    -- has another hash, is refused from then on.
    pub rotate_session_theft :
        (next' next'' : Text) (now' now'' : ℕ)
        → text_eq (hash token) (hash next) ≡ false
        → is_blank next ≡ false
        → now + refresh_grace_ms ≤ now'
        → (rotating next'' now'' c'
            (rotating next' now' (cookie id token) (rotating next now (cookie id token) ss).1).1).0
          ≡ err expired
    unfolding after
    rotate_session_theft next' next'' now' now'' differ full late =
        ap (λ x. (rotating next'' now'' c' x.1).0) (killed next' now' differ late).1
        ∙ ap (λ k. (rotating next'' now'' c' (kill k after)).0) key_eq
        ∙ ap (λ k. (rotating next'' now'' k (kill cur.key after)).0) given.1
        ∙ ap (λ x. x.0)
            (look_up-cookie hash parse_uuid next'' now'' (cookie id next) id next cur.key
              (kill cur.key after) (rotate_parts-cookie id next shape) shape full parsed)
        ∙ ap (λ o. (check_session hash parse_uuid next'' now'' id next o (kill cur.key after)).0)
            (find-kill cur.key after)

  -- After a sign-out with any cookie of a session, whose key is well-formed and is read as a uuid,
  -- every cookie of that session with a token is refused as expired.
  pub revoke_session-rotate :
      (id token other next : Text) (now : ℕ) (key : Text) (ss : List SessionRow)
      → is_session_id id ≡ true
      → parse_uuid id ≡ some key
      → is_blank other ≡ false
      → (rotating next now
          (cookie id other)
          (revoke_session hash parse_uuid (some (cookie id token)) ss).1).0
        ≡ err expired
  unfolding revoke_session
  revoke_session-rotate id token other next now key ss shape parsed full =
      rw (revoke_id-cookie id token shape) (
        rw shape (
          rw parsed (
            ap (λ x. x.0)
              (look_up-cookie hash parse_uuid next now (cookie id other) id other key (kill key ss)
                (rotate_parts-cookie id other shape) shape full parsed)
            ∙ ap (λ o. (check_session hash parse_uuid next now id other o (kill key ss)).0)
                (find-kill key ss))))
