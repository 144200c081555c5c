-- ===== src/Tests/Files.antt =====
-- Uploads, the view of a thread, and the statistics of the administration at concrete inputs.
use micro_manus_services.Base.{
  ℕ, ◌+◌, ◌≡◌, refl, Option, none, some, [], ◌∷◌, ◌++◌, Text, codes, text_eq,
}
use micro_manus_services.Base.Int.{pos_part}
use micro_manus_services.Base.Chars.{to_lower_case}
use micro_manus_services.Db.{ok, err, http}
use micro_manus_services.Chat.Transaction.{attach_to_thread}
use micro_manus_services.Chat.Handlers.{assert_thread}
use micro_manus_services.Chat.Views.{thread_view}
use micro_manus_services.Tools.FetchUrl.{includes}
use micro_manus_services.Uploads.Context.{context_block, block_of, add_files}
use micro_manus_services.Uploads.Save.{
  UploadedFile, SavedUpload, Disk, save, insert_upload, new_upload, extract_text, text_like, is_pdf,
  upload,
}
use micro_manus_services.Uploads.Attached.{in_thread_row, save-context_block}
use micro_manus_services.Admin.Stats.{sum_of, admin_stats, credits_granted, credits_spent}
use micro_manus_services.Admin.Reconciled.{admin_stats_reconciled}
use micro_manus_services.Users.{me}
use micro_manus_services.Auth.Sessions.{unauthorized}
use micro_manus_services.Tests.Data.{sample, sample-IsSound, world}

abbrev disk : Disk
disk = record {
  make_dir = ok tt;
  write_file = λ name bytes. ok tt;
  ext_name = λ name. codes ".txt";
  uuid_text = λ n. n ∷ [];
  utf8 = λ bytes. bytes;
  pdf_text = λ bytes. ok bytes;
}

abbrev notes : UploadedFile
notes = record {
  originalname = codes "Notes.TXT";
  mimetype = codes "application/octet-stream";
  size = 2;
  buffer = codes "Hi";
}

abbrev saved : SavedUpload
saved = record {
  id = 9;
  filename = codes "Notes.TXT";
  mime = codes "application/octet-stream";
  size_bytes = 2;
  url = codes "/public/uploads/" ++ 9 ∷ codes ".txt";
}

abbrev block_for : ℕ → Option Text
block_for user = context_block 5 (attach_to_thread user 5 (9 ∷ []) (save disk 9 1 notes sample).1).1

block_of_notes :
    block_for 1
    ≡ some (
        codes
          "<attached_files>\nThe user attached these files — use them as primary context:\n\n--- Notes.TXT ---\nHi\n</attached_files>")
unfolding context_block add_files attach_to_thread save insert_upload new_upload extract_text
    text_like is_pdf includes text_eq to_lower_case
block_of_notes = refl

block_of_stranger : block_for 2 ≡ none
unfolding context_block add_files attach_to_thread save insert_upload new_upload extract_text
    text_like is_pdf includes text_eq to_lower_case
block_of_stranger = refl

save-context_block_example :
    (saved.id ≡ saved.id) × (block_for 1 ≡ block_of (in_thread_row disk 9 1 notes sample 5 ∷ []))
unfolding save insert_upload new_upload extract_text text_like is_pdf includes text_eq to_lower_case
save-context_block_example = save-context_block disk 9 1 notes sample 1 5 saved refl

no_file : (upload disk 9 1 none sample).0 ≡ err (http 400 (codes "No file provided"))
unfolding upload
no_file = refl

admin_stats_reconciled_example :
    (admin_stats sample).credits_granted
    ≡ (admin_stats sample).credits_spent + sum_of (λ u. pos_part u.credits) sample.users
admin_stats_reconciled_example = admin_stats_reconciled sample sample-IsSound

granted_and_spent :
    ((admin_stats sample).credits_granted ≡ 4) × ((admin_stats sample).credits_spent ≡ 1)
unfolding admin_stats credits_granted credits_spent sum_of
granted_and_spent = (refl, refl)

deleted_account : (me 7 sample).0 ≡ err unauthorized
unfolding me
deleted_account = refl

stranger_view : (thread_view 2 5 world).0 ≡ err (http 404 (codes "Thread not found"))
unfolding thread_view assert_thread
stranger_view = refl
