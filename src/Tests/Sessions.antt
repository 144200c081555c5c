-- ===== src/Tests/Sessions.antt =====
-- Sign-in and refresh sessions at concrete inputs.
use micro_manus_services.Base.{
  find, map, ℕ, ◌≡◌, refl, false, Option, none, some, List, [], ◌∷◌, arith, Text, codes, text_eq,
  true, ⊤,
}
use micro_manus_services.Base.Chars.{trim, to_lower_case}
use micro_manus_services.Base.Int.{pos, ◌+ℤ◌}
use micro_manus_services.Db.{Db, tx, Result, ok, err, Query, UserRow}
use micro_manus_services.Db.Statements.{
  is_user, credits_of, insert_message, insert_run, insert_ledger, update_credits, has_user,
}
use micro_manus_services.Auth.Login.{
  reassign, carry_credits, delete_user, Decoded, login_with_id_token, login_tx, update_user,
  merge_users,
}
use micro_manus_services.Auth.Sessions.{SessionRow, cookie, rotate_session, expired, unauthorized}
use micro_manus_services.Auth.Tokens.{rotate_session_theft}
use micro_manus_services.Auth.Cookies.{
  SameSite, CookiePolicy, Jar, AuthState, Answer, store, session, refresh_session, logout,
  can_activate,
}
use micro_manus_services.Auth.Cookies.Lifecycle.{session_lifecycle}
use micro_manus_services.Chat.Transaction.{SendMessage, send_tx}
use micro_manus_services.Ledger.{balance}
use micro_manus_services.Tests.Data.{opus, sample, alice}

-- Bob's identity with Alice's email: two accounts become one.
abbrev who : Decoded
who = record {
  uid = codes "h-2";
  sign_in_provider = some (codes "github.com");
  email = some (codes "alice@x.org");
  name = none;
  picture = none;
}

abbrev verify : Text → Result Decoded
verify token = ok who

abbrev no_email : Text → Option Text
no_email uid = none

-- Bob's account is gone.
bob_merged :
    has_user 2 (login_with_id_token no_email none verify (codes "t") 3 sample).1.users ≡ false
unfolding login_with_id_token login_tx update_user merge_users update_credits text_eq to_lower_case
    trim ◌+ℤ◌
bob_merged = refl

-- A hash that keeps tokens apart, and a reading of keys that takes every text.
abbrev hash : Text → Text
hash t = 1 ∷ t

abbrev parse : Text → Option Text
parse t = some t

abbrev id : Text
id = codes "00000000-0000-0000-0000-000000000000"

abbrev row : SessionRow
row = record {
  id = id;
  user_id = 1;
  refresh_hash = 1 ∷ codes "a";
  prev_hash = none;
  rotated_at = none;
  expires_at = 1000;
}

abbrev rotating : Text → ℕ → Text → List SessionRow → Result (ℕ × Option Text) × List SessionRow
rotating = rotate_session hash parse

abbrev after : List SessionRow
after = (rotating (codes "b") 900 (cookie id (codes "a")) (row ∷ [])).1

rotate_session_theft_example :
    (rotating
      (codes "d")
      50001
      (cookie id (codes "b"))
      (rotating (codes "c") 50000 (cookie id (codes "a")) after).1).0
    ≡ err expired
unfolding rotate_session text_eq
rotate_session_theft_example =
    rotate_session_theft hash parse (codes "b") 900 id (codes "a") (row ∷ []) 1
      (cookie id (codes "b")) refl refl (codes "c") (codes "d") 50000 50001 refl refl (ground arith)

abbrev policy : CookiePolicy
policy = record { same_site = SameSite.lax; https = true }

abbrev sign : ℕ → Text
sign user = user ∷ []

abbrev check : Text → Option ℕ
check [] = none
check (c ∷ cs) = some c

abbrev login : Query UserRow
login d = (ok alice, d)

abbrev nobody : Jar
nobody = record { access = none; refresh = none }

abbrev fresh_state : AuthState
fresh_state = record { db = sample; sessions = row ∷ [] }

abbrev here : Answer UserRow
here = session policy sign hash parse login id (codes "t") 900 fresh_state

abbrev jar : Text → Jar
jar token = record { access = some (sign 1); refresh = some (cookie id token) }

abbrev again : Jar → Text → ℕ → AuthState → Answer ⊤
again = refresh_session policy sign hash parse

abbrev left : Answer ⊤
left = logout policy sign hash parse (jar (codes "u")) fresh_state

session_lifecycle_example :
    (here.result ≡ ok alice)
    × (can_activate check (store here.cookies nobody) ≡ ok 1)
    × ((again (store here.cookies nobody) (codes "u") 1000 here.state).result ≡ ok tt)
    × (store
          (again (store here.cookies nobody) (codes "u") 1000 here.state).cookies
          (store here.cookies nobody)
        ≡ jar (codes "u"))
    × (can_activate check (jar (codes "u")) ≡ ok 1)
    × (left.result ≡ ok tt)
    × (can_activate check (store left.cookies (jar (codes "u"))) ≡ err unauthorized)
    × ((again (jar (codes "u")) (codes "v") 2000 left.state).result ≡ err expired)
    × ((again (store here.cookies nobody) (codes "v") 2000 left.state).result ≡ err expired)
session_lifecycle_example =
    session_lifecycle policy sign check hash parse login id (codes "t") (codes "u") 900 fresh_state
      alice sample nobody refl refl refl refl refl (record { filled = refl; verified = refl }) 1000
      (codes "v") 2000 fresh_state (ground arith)

abbrev dto : SendMessage
dto = record { content = codes "And now?"; model_id = opus; attachment_ids = [] }

-- The statements of `mergeUsers`, with a message of Bob's charged after the ledger has moved.
abbrev raced : Db
raced =
    let charged : Db = (tx (send_tx 11 21 100 2 6 dto) (reassign 1 2 sample)).1 in
    delete_user 2 (carry_credits (find (is_user 2) charged.users) 1 charged).1

-- At READ COMMITTED these can run in this order, and the balance is out of step with the ledger.
raced_out_of_step :
    (map credits_of raced.users ≡ pos 2 ∷ []) × (balance 1 raced.credit_ledger ≡ pos 3)
unfolding send_tx update_credits insert_message insert_run insert_ledger ◌+ℤ◌
raced_out_of_step = (refl, refl)
