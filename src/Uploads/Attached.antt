-- ===== src/Uploads/Attached.antt =====
-- A file that is saved, attached to a thread and read for the model
-- (src/uploads/uploads.service.ts).
use micro_manus_services.Base.{
  ℕ, ⊤, ◌≡◌, refl, Bool, true, false, ◌&&◌, ◌||◌, some, List, [], ◌∷◌, arith, ◌==◌, if◌then◌else◌,
  ==_iff, keep, any, update_where, reverse, ap, sym, ◌∙◌,
}
use micro_manus_services.Db.{
  Db, Query, Result, ok, err, UploadRow, pure, then_run, ◌>>◌, pg, SqlState,
}
use micro_manus_services.Db.Statements.{has_user}
use micro_manus_services.Chat.Transaction.{is_attached, attach_to_thread}
use micro_manus_services.Keys.Accepted.{injected}
use micro_manus_services.Uploads.Context.{context_block, block_of, is_readable, has_text}
use micro_manus_services.Uploads.Save.{
  UploadedFile, SavedUpload, Disk, insert_upload, new_upload, stored_name, saved_upload, save,
}

-- A success adds a row with a new key.
abbrev SavedIfOk : UploadRow → Db → Result SavedUpload × Db → Type 0
SavedIfOk u d (ok s, d') =
    (s.id ≡ u.id)
    × (d' ≡ record d { uploads = u ∷ d.uploads })
    × (any (λ r. r.id == u.id) d.uploads ≡ false)
SavedIfOk u d (err e, d') = ⊤

lift-Saved :
    {A : Type 0} (u : UploadRow) (d : Db) (f : A → Query SavedUpload) (r : Result A)
    → ((a : A) → SavedIfOk u d (f a d))
    → SavedIfOk u d (then_run f (r, d))
lift-Saved u d f (ok a) h = h a
lift-Saved u d f (err e) h = tt

insert-Saved :
    (u : UploadRow) (d : Db) (s : SavedUpload)
    → s.id ≡ u.id
    → SavedIfOk u d ((insert_upload u >> pure s) d)
unfolding insert_upload
insert-Saved u d s same = go (any (λ r. r.id == u.id) d.uploads) (has_user u.user_id d.users) refl
  where
    go :
        (b c : Bool)
        → any (λ r. r.id == u.id) d.uploads ≡ b
        → SavedIfOk u d (
            then_run
              (λ _. pure s)
              (if b
                then (err (pg SqlState.unique_violation), d)
                else if c
                then (ok tt, record d { uploads = u ∷ d.uploads })
                else (err (pg SqlState.foreign_key_violation), d)))
    go true c e = tt
    go false true e = (same, refl, e)
    go false false e = tt

attached-others :
    (v fresh : ℕ) (f : UploadRow → UploadRow) (us : List UploadRow)
    → any (λ r. r.id == fresh) us ≡ false
    → update_where (is_attached v (fresh ∷ [])) f us ≡ us
attached-others v fresh f [] h = refl
attached-others v fresh f (u ∷ us) h = ground (arith, attached-others v fresh f us)

module _ (disk : Disk) (fresh user : ℕ) (file : UploadedFile) (d : Db) where
  save-Saved : SavedIfOk (new_upload disk fresh user file) d (save disk fresh user file d)
  unfolding save
  save-Saved = lift-Saved (new_upload disk fresh user file) d _ disk.make_dir λ _.
      lift-Saved (new_upload disk fresh user file) d
        (λ _.
          insert_upload (new_upload disk fresh user file) >> pure (saved_upload disk fresh file))
        (disk.write_file (stored_name disk fresh file) file.buffer)
        λ _. insert-Saved (new_upload disk fresh user file) d (saved_upload disk fresh file) refl

  -- The row once it is attached to a thread.
  abbrev pub in_thread_row : ℕ → UploadRow
  in_thread_row thread = record (new_upload disk fresh user file) { thread_id = some thread }

  abbrev readable : ℕ → List UploadRow
  readable thread = keep (is_readable thread) d.uploads

  attached-readable :
      (v thread : ℕ)
      → any (λ r. r.id == fresh) d.uploads ≡ false
      → keep
          (is_readable thread)
          (attach_to_thread v thread
            (fresh ∷ [])
            (record d { uploads = new_upload disk fresh user file ∷ d.uploads })).1.uploads
        ≡ (if user == v && has_text (in_thread_row thread).text_content
            then in_thread_row thread ∷ readable thread
            else readable thread)
  unfolding attach_to_thread new_upload
  attached-readable v thread new =
      rw (attached-others v fresh (λ u. record u { thread_id = some thread }) d.uploads new)
        (rw ((==_iff fresh fresh).1 refl) (go (user == v)))
    where
      go :
          (b : Bool)
          → keep (is_readable thread) (
              (if b && (true || false)
                then in_thread_row thread
                else new_upload disk fresh user file)
              ∷ d.uploads)
            ≡ (if b && has_text (in_thread_row thread).text_content
                then in_thread_row thread ∷ readable thread
                else readable thread)
      go false = refl
      go true = rw ((==_iff thread thread).1 refl) refl

  -- After a successful `save` and an `attachToThread` with its key, the block for the model is that
  -- of the thread's earlier files and, if the file has a text and whoever attaches it is the user
  -- that saved it, this file as the last one.
  pub save-context_block :
      (v thread : ℕ) (s : SavedUpload)
      → (save disk fresh user file d).0 ≡ ok s
      → (s.id ≡ fresh)
        × (context_block thread
              (attach_to_thread v thread (s.id ∷ []) (save disk fresh user file d).1).1
            ≡ block_of (
                reverse (
                  if user == v && has_text (in_thread_row thread).text_content
                  then in_thread_row thread ∷ readable thread
                  else readable thread)))
  unfolding context_block new_upload
  save-context_block v thread s q = go (save disk fresh user file d) save-Saved q
    where
      go :
          (x : Result SavedUpload × Db)
          → SavedIfOk (new_upload disk fresh user file) d x
          → x.0 ≡ ok s
          → (s.id ≡ fresh)
            × (context_block thread (attach_to_thread v thread (s.id ∷ []) x.1).1
                ≡ block_of (
                    reverse (
                      if user == v && has_text (in_thread_row thread).text_content
                      then in_thread_row thread ∷ readable thread
                      else readable thread)))
      go (ok t, d') (e, f, new) k =
          let same : s.id ≡ fresh = ap (λ (x : SavedUpload). x.id) (sym (injected k)) ∙ e in
          (same, rw same (rw f (ap (λ us. block_of (reverse us)) (attached-readable v thread new))))
      go (err e, d') h k = absurd cc
