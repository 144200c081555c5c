-- ===== src/Admin/Grants.antt =====
-- Lemmas on the adjustment of credits by an administrator (src/admin) and on the role check before
-- it.
use micro_manus_services.Base.{ℕ, ◌≡◌, refl, inl, inr, false, [], ◌∷◌, Bool-cases, codes, find}
use micro_manus_services.Base.Int.{ℤ}
use micro_manus_services.Db.{Db, err, http}
use micro_manus_services.Db.Statements.{is_user}
use micro_manus_services.Ledger.Sound.{IsSound, grant_cases, credited-IsSound}
use micro_manus_services.Admin.{admin_row, grant_credits, is_admin, request_grant}

grant_credits-IsSound :
    (admin target : ℕ) (delta : ℤ) (d : Db)
    → IsSound d
    → IsSound (grant_credits admin target delta d).1
unfolding grant_credits
grant_credits-IsSound admin target delta d v = elim (grant_cases (admin_row admin target delta) d) [
  | inl (x, d', e) ↦ rw e v
  | inr ([], a, e) ↦ rw e v
  | inr (c ∷ cs, a, e) ↦ rw e (credited-IsSound (admin_row admin target delta) d (refl, refl) a v)
]

-- A request to adjust credits, by anyone, keeps every balance equal to its ledger and not negative.
pub request_grant-IsSound :
    (caller target : ℕ) (delta : ℤ) (d : Db)
    → IsSound d
    → IsSound (request_grant caller target delta d).1
unfolding request_grant
request_grant-IsSound caller target delta d v =
    elim (Bool-cases (is_admin (find (is_user caller) d.users))) [
      | inl admin ↦ rw admin (grant_credits-IsSound caller target delta d v)
      | inr other_role ↦ rw other_role v
    ]

-- A caller who is not an administrator gets a 403, and nothing changes.
pub request_grant_forbidden :
    (caller target : ℕ) (delta : ℤ) (d : Db)
    → is_admin (find (is_user caller) d.users) ≡ false
    → request_grant caller target delta d ≡ (err (http 403 (codes "Admins only")), d)
unfolding request_grant
request_grant_forbidden caller target delta d h = rw h
