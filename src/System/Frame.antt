-- ===== src/System/Frame.antt =====
-- The writes of src/memory, src/artifacts, src/uploads and src/keys, which leave users, ledger and
-- runs alone.
use micro_manus_services.Base.{
  ℕ, ◌≡◌, refl, sym, inl, inr, Bool, true, false, not, ◌&&◌, Option, none, some, List, ◌∷◌, ◌==◌,
  if◌then◌else◌, Bool-cases, Text, codes, keep, find, any,
}
use mathlib.Core.Path.{subst}
use micro_manus_services.Artifacts.{insert_artifact, set_path, allowed_type, has_run}
use micro_manus_services.Uploads.Save.{insert_upload}
use micro_manus_services.Keys.Probe.{ProbeResult}
use micro_manus_services.Memory.{archive_tx, insert_summary, archive_messages}
use micro_manus_services.Llm.Service.{key_for}
use micro_manus_services.Ledger.Sound.{IsSound}
use micro_manus_services.Db.{
  Db, Result, ok, err, pg, http, SqlState, SummaryRow, MessageRow, ArtifactRow, UploadRow,
  ApiKeyRow, tx, settle,
}
use micro_manus_services.Db.Statements.{is_thread, has_user}
use micro_manus_services.Ledger.{IsBalanced, IsCharged, IsExclusive}
use micro_manus_services.Keys.Store.{upsert_key, upsert_row, key_row, delete_key, is_key}

-- Two databases with the same users, ledger and runs.
pub record SameBooks (a b : Db) : Type 0 where
  pub users : b.users ≡ a.users
  pub ledger : b.credit_ledger ≡ a.credit_ledger
  pub runs : b.runs ≡ a.runs

pub framed-IsSound : (a b : Db) → SameBooks a b → IsSound a → IsSound b
framed-IsSound a b s v = record {
  balanced =
      subst (λ us. IsBalanced us b.credit_ledger) (sym s.users)
        (subst (λ es. IsBalanced a.users es) (sym s.ledger) v.balanced);
  charged =
      subst (λ rs. IsCharged rs b.credit_ledger) (sym s.runs)
        (subst (λ es. IsCharged a.runs es) (sym s.ledger) v.charged);
  exclusive = subst IsExclusive (sym s.runs) v.exclusive;
}

same_as : (d : Db) → SameBooks d d
same_as d = record { users = refl; ledger = refl; runs = refl }

module _ {A : Type 0} (a : Db) where
  if-SameBooks :
      (b : Bool) (x y : Result A × Db)
      → SameBooks a x.1
      → SameBooks a y.1
      → SameBooks a (if b then x else y).1
  if-SameBooks true x y h k = h
  if-SameBooks false x y h k = k

  settle-SameBooks : (x : Result A × Db) → SameBooks a x.1 → SameBooks a (settle a x).1
  settle-SameBooks (ok r, d) h = h
  settle-SameBooks (err e, d) h = same_as a

pub insert_artifact-SameBooks : (r : ArtifactRow) (d : Db) → SameBooks d (insert_artifact r d).1
unfolding insert_artifact
insert_artifact-SameBooks r d =
    if-SameBooks d (any (λ b. b.id == r.id) d.artifacts) (err (pg SqlState.unique_violation), d) _
      (same_as d)
      (if-SameBooks d (allowed_type r.type) _ (err (pg SqlState.check_violation), d)
        (if-SameBooks d (any (is_thread r.thread_id) d.threads && has_run r.run_id d.runs)
          (ok tt, record d { artifacts = r ∷ d.artifacts })
          (err (pg SqlState.foreign_key_violation), d)
          (record { users = refl; ledger = refl; runs = refl }) (same_as d))
        (same_as d))

pub set_path-SameBooks : (id : ℕ) (path : Text) (d : Db) → SameBooks d (set_path id path d).1
unfolding set_path
set_path-SameBooks id path d = record { users = refl; ledger = refl; runs = refl }

pub insert_upload-SameBooks : (u : UploadRow) (d : Db) → SameBooks d (insert_upload u d).1
unfolding insert_upload
insert_upload-SameBooks u d =
    if-SameBooks d (any (λ r. r.id == u.id) d.uploads) (err (pg SqlState.unique_violation), d) _
      (same_as d)
      (if-SameBooks d (has_user u.user_id d.users) (ok tt, record d { uploads = u ∷ d.uploads })
        (err (pg SqlState.foreign_key_violation), d)
        (record { users = refl; ledger = refl; runs = refl }) (same_as d))

pub archive_tx-SameBooks :
    (s : SummaryRow) (block : List MessageRow) (d : Db) → SameBooks d (tx (archive_tx s block) d).1
unfolding archive_tx insert_summary archive_messages
archive_tx-SameBooks s block d = elim (Bool-cases (any (is_thread s.thread_id) d.threads)) [
  | inl there ↦ rw there (record { users = refl; ledger = refl; runs = refl })
  | inr gone ↦ rw gone (same_as d)
]

pub upsert_key-SameBooks :
    (fresh user : ℕ) (ciphertext key : Text) (p : ProbeResult) (d : Db)
    → SameBooks d (upsert_key fresh user ciphertext key p d).1
unfolding upsert_key
upsert_key-SameBooks fresh user ciphertext key p d = go (find (key_for user p.provider) d.api_keys)
  where
    go : (o : Option ApiKeyRow) → SameBooks d (upsert_row fresh user ciphertext key p o d).1
    go (some k) = record { users = refl; ledger = refl; runs = refl }
    go none =
        if-SameBooks d (has_user user d.users)
          (ok fresh, record d { api_keys = key_row fresh user ciphertext key p ∷ d.api_keys })
          (err (pg SqlState.foreign_key_violation), d)
          (record { users = refl; ledger = refl; runs = refl }) (same_as d)

pub delete_key-SameBooks : (user id : ℕ) (d : Db) → SameBooks d (delete_key user id d).1
unfolding delete_key
delete_key-SameBooks user id d =
    if-SameBooks d (any (is_key user id) d.api_keys)
      (ok tt, record d { api_keys = keep (λ k. not (is_key user id k)) d.api_keys })
      (err (http 404 (codes "Not Found")), d) (record { users = refl; ledger = refl; runs = refl })
      (same_as d)
