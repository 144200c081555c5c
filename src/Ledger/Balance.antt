-- ===== src/Ledger/Balance.antt =====
-- How `IsBalanced` fares when credits move together with a ledger row.
use micro_manus_services.Base.{
  ℕ, ◌≡◌, ◌∙◌, refl, ◌≢◌, Bool, true, false, ◌&&◌, none, List, [], ◌∷◌, map, ◌==◌, if◌then◌else◌,
  keep, update_where, All, arith,
}
use micro_manus_services.Base.Int.{ℤ, pos, ◌≤ℤ◌, ltb_ℤ, int_laws}
use micro_manus_services.Db.{UserRow, LedgerRow}
use micro_manus_services.Db.Statements.{is_user, has_user, add_to_credits, users_error}
use micro_manus_services.Ledger.Defs.{balance, contains, NoDup, user_ids, IsBalanced}

module _ {ℓ κ} {A : Type ℓ} {B : Type κ} where
  -- An update that leaves a column alone.
  pub map-update_where :
      (g : A → B) (p : A → Bool) (f : A → A)
      → ((x : A) → g (f x) ≡ g x)
      → (xs : List A) → map g (update_where p f xs) ≡ map g xs
  map-update_where g p f h [] = refl
  map-update_where g p f h (x ∷ xs) = ground (arith, h x, map-update_where g p f h xs)

has_user-user_ids : (id : ℕ) (us : List UserRow) → has_user id us ≡ contains id (user_ids us)
has_user-user_ids id [] = refl
has_user-user_ids id (u ∷ us) = ground (arith, has_user-user_ids id us)

user_ids-update :
    (p : UserRow → Bool) (delta : ℤ) (us : List UserRow)
    → user_ids (update_where p (add_to_credits delta) us) ≡ user_ids us
user_ids-update p delta us = map-update_where (λ u. u.id) p (add_to_credits delta) (λ u. refl) us

pub has_user-update :
    (id : ℕ) (p : UserRow → Bool) (delta : ℤ) (us : List UserRow)
    → has_user id (update_where p (add_to_credits delta) us) ≡ has_user id us
has_user-update id p delta [] = refl
has_user-update id p delta (u ∷ us) = ground (arith, has_user-update id p delta us)

pub users_error-nonneg :
    (us : List UserRow) → users_error us ≡ none → All (λ u. pos 0 ≤ℤ u.credits) us
users_error-nonneg [] h = tt
users_error-nonneg (u ∷ us) h = ground (arith, users_error-nonneg us)

sums-update :
    (e : LedgerRow) (us : List UserRow) (es : List LedgerRow)
    → All (λ u. u.credits ≡ balance u.id es) us
    → All
        (λ u. u.credits ≡ balance u.id (e ∷ es))
        (update_where (is_user e.user_id) (add_to_credits e.delta) us)
sums-update e [] es h = tt
sums-update e (u ∷ us) es h = (head_sum, sums-update e us es h.1)
  where
    head_sum :
        (if is_user e.user_id u then add_to_credits e.delta u else u).credits
        ≡ balance (if is_user e.user_id u then add_to_credits e.delta u else u).id (e ∷ es)
    head_sum = grind (int_laws, h.0)

owned-update :
    (p : UserRow → Bool) (delta : ℤ) (us : List UserRow) (es : List LedgerRow)
    → All (λ e. has_user e.user_id us ≡ true) es
    → All (λ e. has_user e.user_id (update_where p (add_to_credits delta) us) ≡ true) es
owned-update p delta us [] h = tt
owned-update p delta us (e ∷ es) h =
    (has_user-update e.user_id p delta us ∙ h.0, owned-update p delta us es h.1)

-- A credit that the constraints accept, with its ledger row.
pub credit-IsBalanced :
    (e : LedgerRow) (us : List UserRow) (es : List LedgerRow)
    → IsBalanced us es
    → has_user e.user_id us ≡ true
    → users_error (update_where (is_user e.user_id) (add_to_credits e.delta) us) ≡ none
    → IsBalanced (update_where (is_user e.user_id) (add_to_credits e.delta) us) (e ∷ es)
credit-IsBalanced e us es v known fits = record {
  keys = rw (user_ids-update (is_user e.user_id) e.delta us) v.keys;
  sums = sums-update e us es v.sums;
  nonneg = users_error-nonneg _ fits;
  owned = (
    has_user-update e.user_id (is_user e.user_id) e.delta us ∙ known,
    owned-update (is_user e.user_id) e.delta us es v.owned,
  );
}

-- `WHERE id = $1 AND credits > 0`
abbrev pub can_pay : ℕ → UserRow → Bool
can_pay id u = u.id == id && ltb_ℤ (pos 0) u.credits

pub keep-has_user : (id : ℕ) (us : List UserRow) → keep (can_pay id) us ≢ [] → has_user id us ≡ true
keep-has_user id [] h = absurd (h refl)
keep-has_user id (u ∷ us) h = ground (arith, keep-has_user id us)

update-absent :
    (id : ℕ) (delta : ℤ) (us : List UserRow)
    → has_user id us ≡ false
    → update_where (can_pay id) (add_to_credits delta) us
      ≡ update_where (is_user id) (add_to_credits delta) us
update-absent id delta [] h = refl
update-absent id delta (u ∷ us) h = ground (arith, update-absent id delta us)

-- Keys are unique, so the guard on the balance picks the row that the key picks, or none.
pub update-can_pay :
    (id : ℕ) (delta : ℤ) (us : List UserRow)
    → NoDup (user_ids us)
    → keep (can_pay id) us ≢ []
    → update_where (can_pay id) (add_to_credits delta) us
      ≡ update_where (is_user id) (add_to_credits delta) us
update-can_pay id delta [] d h = refl
update-can_pay id delta (u ∷ us) d h = ground (
  arith,
  update-can_pay id delta us d.1,
  update-absent id delta us,
  has_user-user_ids id us,
  keep-has_user id us,
)
