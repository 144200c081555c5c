-- ===== src/Users.antt =====
-- src/users/users.controller.ts: what a signed-in user is told of the account.
use micro_manus_services.Base.{ℕ, Bool, true, false, ◌&&◌, Option, none, some, ◌==◌, find, any}
use micro_manus_services.Base.Int.{ℤ}
use micro_manus_services.Db.{Query, ok, UserRow, Reason, throw}
use micro_manus_services.Db.Statements.{is_user}
use micro_manus_services.Auth.Sessions.{unauthorized}

pub record Me : Type 0 where
  pub user : UserRow
  pub credits : ℤ
  pub has_entitlement : Bool
  pub has_key : Bool

abbrev entitles : Reason → Bool
entitles Reason.purchase = true
entitles Reason.coupon = true
entitles _ = false

abbrev me_of : Option UserRow → Query Me
me_of none d = throw unauthorized d
me_of (some u) d = (
  ok (record {
    user = u;
    credits = u.credits;
    has_entitlement = any (λ e. e.user_id == u.id && entitles e.reason) d.credit_ledger;
    has_key = any (λ k. k.user_id == u.id) d.api_keys;
  }),
  d,
)

unfoldable pub me : ℕ → Query Me
me user d = me_of (find (is_user user) d.users) d
