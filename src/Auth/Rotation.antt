-- ===== src/Auth/Rotation.antt =====
-- The life of a refresh session (src/auth/auth.service.ts) over several requests.
use micro_manus_services.Base.{
  ℕ, ◌≡◌, refl, ◌⊎◌, inl, inr, true, false, ◌&&◌, Option, none, some, List, [], ◌∷◌, arith, ltb,
  Bool-cases, Text, find, all, update_where, text_eq,
}
use micro_manus_services.Db.{ok}
use micro_manus_services.Auth.Sessions.{
  SessionRow, cookie, split_dot, rotate_parts, revoke_id, is_id_char, is_session_id, is_session,
  is_blank, kill, rotated, check_token, check_session, look_up, rotate_session, same_hash, recent,
}

split_dot-cookie :
    (id token : Text) → all is_id_char id ≡ true → split_dot (cookie id token) ≡ some (id, token)
split_dot-cookie [] token h = refl
split_dot-cookie (c ∷ cs) token h = ground (arith, split_dot-cookie cs token)

pub rotate_parts-cookie :
    (id token : Text) → is_session_id id ≡ true → rotate_parts (cookie id token) ≡ (id, token)
rotate_parts-cookie id token h = rw (split_dot-cookie id token (ground arith)) refl

pub revoke_id-cookie :
    (id token : Text) → is_session_id id ≡ true → revoke_id (cookie id token) ≡ id
revoke_id-cookie id token h = rw (split_dot-cookie id token (ground arith)) refl

pub find-is_session :
    (key : Text) (ss : List SessionRow) (s : SessionRow)
    → find (is_session key) ss ≡ some s
    → text_eq s.id key ≡ true
find-is_session key [] s h = absurd cc
find-is_session key (x ∷ ss) s h = ground (arith, find-is_session key ss s)

pub find-kill : (key : Text) (ss : List SessionRow) → find (is_session key) (kill key ss) ≡ none
find-kill key [] = refl
find-kill key (x ∷ ss) = elim (Bool-cases (is_session key x)) [
  | inl hit ↦ rw hit (find-kill key ss)
  | inr miss ↦ rw miss (rw miss (find-kill key ss))
]

pub find-update :
    (key : Text) (f : SessionRow → SessionRow) (ss : List SessionRow) (s : SessionRow)
    → ((x : SessionRow) → (f x).id ≡ x.id)
    → find (is_session key) ss ≡ some s
    → find (is_session key) (update_where (is_session key) f ss) ≡ some (f s)
find-update key f [] s same h = absurd cc
find-update key f (x ∷ ss) s same h = elim (Bool-cases (is_session key x)) [
  | inl hit ↦ ground (arith, same x)
  | inr miss ↦ rw miss (rw miss (find-update key f ss s same (rw miss at h)))
]

module _ (hash : Text → Text) (parse_uuid : Text → Option Text) where
  -- What a rotation has found when it gives out a new cookie.
  pub record Current (next : Text) (now : ℕ) (cookie_val : Text) (ss : List SessionRow)
      : Type 0 where
    pub id : Text
    pub token : Text
    pub key : Text
    pub row : SessionRow
    pub parts : rotate_parts cookie_val ≡ (id, token)
    pub shape : is_session_id id ≡ true
    pub filled : is_blank token ≡ false
    pub parsed : parse_uuid id ≡ some key
    pub found : find (is_session key) ss ≡ some row
    pub live : ltb row.expires_at now ≡ false
    pub current : text_eq (hash token) row.refresh_hash ≡ true
    pub result : rotate_session hash parse_uuid next now cookie_val ss ≡ (
      ok (row.user_id, some (cookie id next)),
      update_where (is_session row.id) (rotated hash parse_uuid next now) ss,
    )

  -- A cookie with a well-formed key and a token is looked up by the key.
  pub look_up-cookie :
      (next : Text) (now : ℕ) (c id token key : Text) (ss : List SessionRow)
      → rotate_parts c ≡ (id, token)
      → is_session_id id ≡ true
      → is_blank token ≡ false
      → parse_uuid id ≡ some key
      → rotate_session hash parse_uuid next now c ss
        ≡ check_session hash parse_uuid next now id token (find (is_session key) ss) ss
  unfolding rotate_session
  look_up-cookie next now c id token key ss parts shape filled parsed =
      rw parts (rw shape (rw filled (rw parsed refl)))

  -- Where a new cookie is given out, the token was current.
  pub rotate_session-Current :
      (next : Text) (now : ℕ) (c : Text) (ss : List SessionRow) (u : ℕ) (c' : Text)
      → (rotate_session hash parse_uuid next now c ss).0 ≡ ok (u, some c')
      → Current next now c ss
  unfolding rotate_session
  rotate_session-Current next now c ss u c' h =
      by_shape (Bool-cases (is_session_id id)) (Bool-cases (is_blank token))
    where
      id : Text
      id = (rotate_parts c).0

      token : Text
      token = (rotate_parts c).1

      by_token :
          (key : Text) (s : SessionRow)
          → is_session_id id ≡ true
          → is_blank token ≡ false
          → parse_uuid id ≡ some key
          → find (is_session key) ss ≡ some s
          → ltb s.expires_at now ≡ false
          → (check_token hash parse_uuid next now id token s ss).0 ≡ ok (u, some c')
          → Current next now c ss
      by_token key s shape filled parsed found live h =
          elim (Bool-cases (text_eq (hash token) s.refresh_hash)) [
            | inl current ↦ record {
              id = id;
              token = token;
              key = key;
              row = s;
              parts = refl;
              shape = shape;
              filled = filled;
              parsed = parsed;
              found = found;
              live = live;
              current = current;
              result =
                  rw (look_up-cookie next now c id token key ss refl shape filled parsed)
                    (rw found (rw live (rw current refl)));
            }
            | inr stale ↦
                elim (Bool-cases (same_hash s.prev_hash (hash token) && recent s.rotated_at now)) [
                  | inl grace ↦ absurd (ground (arith, h, stale, grace))
                  | inr unknown ↦ absurd (ground (arith, h, stale, unknown))
                ]
          ]

      by_row :
          (key : Text) (o : Option SessionRow)
          → is_session_id id ≡ true
          → is_blank token ≡ false
          → parse_uuid id ≡ some key
          → find (is_session key) ss ≡ o
          → (check_session hash parse_uuid next now id token o ss).0 ≡ ok (u, some c')
          → Current next now c ss
      by_row key none shape filled parsed found h = cc
      by_row key (some s) shape filled parsed found h = elim (Bool-cases (ltb s.expires_at now)) [
        | inl over ↦ absurd (ground (arith, h, over))
        | inr live ↦ by_token key s shape filled parsed found live (rw live at h)
      ]

      by_key :
          (k : Option Text)
          → is_session_id id ≡ true
          → is_blank token ≡ false
          → parse_uuid id ≡ k
          → (look_up hash parse_uuid next now id token k ss).0 ≡ ok (u, some c')
          → Current next now c ss
      by_key none shape filled e h = cc
      by_key (some key) shape filled e h =
          by_row key (find (is_session key) ss) shape filled e refl h

      by_shape :
          (is_session_id id ≡ true) ⊎ (is_session_id id ≡ false)
          → (is_blank token ≡ true) ⊎ (is_blank token ≡ false)
          → Current next now c ss
      by_shape (inr bad) b = absurd (ground (arith, h, bad))
      by_shape (inl shape) (inl blank) = absurd (ground (arith, h, shape, blank))
      by_shape (inl shape) (inr filled) =
          by_key (parse_uuid id) shape filled refl (rw filled at (rw shape at h))
