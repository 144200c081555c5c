-- ===== src/Admin.antt =====
-- src/admin: the role check and the manual adjustment of credits.
pub mod Grants
pub mod Stats
pub mod Reconciled
use micro_manus_services.Base.{
  ℕ, zero, suc, ◌+◌, ◌-◌, ◌*◌, ◌/◌, ◌%◌, ◌≤◌, ◌<◌, max, String, ⊤, ◌≡◌, refl, sym, ap, ◌∙◌, ◌≢◌,
  ◌⊎◌, inl, inr, Bool, true, false, not, ◌&&◌, ◌||◌, Option, none, some, List, [], ◌∷◌, ◌++◌, map,
  reverse, arith, ltb, leb, ◌==◌, if◌then◌else◌, ltb→lt, lt→ltb, leb→le, ==_iff, tests, Bool-cases,
  Option-cases, is_some, Text, codes, length, take, drop, head?, last?, keep, find, any, all,
  update_where, update_where-none, length-append, length-take-le, All, All-append, All-map, text_eq,
}
use micro_manus_services.Base.Int.{ℤ}
use micro_manus_services.Db.{
  Db, Query, Result, ok, err, Error, http, Role, Reason, Ref, UserRow, LedgerRow, tx, ◌>>=◌, ◌>>◌,
  pure,
}
use micro_manus_services.Db.Statements.{is_user}
use micro_manus_services.Ledger.Sound.{grant}
use micro_manus_services.Billing.{first_or_throw}

abbrev pub is_admin : Option UserRow → Bool
is_admin none = false
is_admin (some u) = elim u.role [ Role.admin ↦ true | _ ↦ false ]

-- `AdminGuard.canActivate`
unfoldable pub can_activate : ℕ → Query Bool
can_activate user d =
    if is_admin (find (is_user user) d.users)
    then (ok true, d)
    else (err (http 403 (codes "Admins only")), d)

abbrev pub admin_row : ℕ → ℕ → ℤ → LedgerRow
admin_row admin target delta = record {
  user_id = target;
  delta = delta;
  reason = Reason.admin_grant;
  ref_id = Ref.ref_admin admin;
}

abbrev pub grant_body : ℕ → ℕ → ℤ → Query ℤ
grant_body admin target delta = grant (admin_row admin target delta) >>= first_or_throw

-- The handler `grantCredits`.
unfoldable pub grant_credits : ℕ → ℕ → ℤ → Query ℤ
grant_credits admin target delta = tx (grant_body admin target delta)

-- A request to it, behind the guard.
unfoldable pub request_grant : ℕ → ℕ → ℤ → Query ℤ
unfolding can_activate grant_credits
request_grant caller target delta = can_activate caller >> grant_credits caller target delta
