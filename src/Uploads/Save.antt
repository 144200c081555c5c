-- ===== src/Uploads/Save.antt =====
-- `save` of src/uploads/uploads.service.ts and the handler of src/uploads/uploads.controller.ts,
-- whose limit on the size is the framework's. Files, the decoding of UTF-8 and the reading of a PDF
-- are parameters; the log is left out.
use micro_manus_services.Base.{
  ℕ, ◌*◌, ⊤, Bool, ◌||◌, Option, none, some, List, [], ◌∷◌, ◌++◌, reverse, ◌==◌, if◌then◌else◌,
  Text, codes, take, any, text_eq,
}
use micro_manus_services.Base.Chars.{to_lower_case}
use micro_manus_services.Db.{
  Query, Result, ok, err, http, pg, SqlState, UploadRow, pure, throw, ◌>>=◌, ◌>>◌,
}
use micro_manus_services.Db.Statements.{has_user}
use micro_manus_services.Tools.FetchUrl.{starts_with, includes}
use micro_manus_services.Artifacts.{lift_query}
use micro_manus_services.Uploads.Context.{per_file_text_cap}

pub record UploadedFile : Type 0 where
  pub originalname : Text
  pub mimetype : Text
  pub size : ℕ
  pub buffer : Text

pub record SavedUpload : Type 0 where
  pub id : ℕ
  pub filename : Text
  pub mime : Text
  pub size_bytes : ℕ
  pub url : Text

pub record Disk : Type 0 where
  pub make_dir : Result ⊤
  pub write_file : (name bytes : Text) → Result ⊤
  pub ext_name : Text → Text
  pub uuid_text : ℕ → Text
  pub utf8 : Text → Text
  pub pdf_text : Text → Result Text

abbrev ends_with : Text → Text → Bool
ends_with part s = starts_with (reverse part) (reverse s)

abbrev some_included : Text → List Text → Bool
unfolding includes
some_included s parts = any (λ p. includes p s) parts

-- `/\.(…)$/i`
abbrev has_ending : Text → List Text → Bool
unfolding to_lower_case
has_ending name endings = any (λ e. ends_with (46 ∷ e) (to_lower_case name)) endings

unfoldable pub text_like : (mime name : Text) → Bool
unfolding some_included has_ending
text_like mime name =
    starts_with (codes "text/") mime
    || some_included mime (
        codes "json"
        ∷ codes "csv"
        ∷ codes "xml"
        ∷ codes "markdown"
        ∷ codes "javascript"
        ∷ codes "typescript"
        ∷ [])
    || has_ending name (
        codes "txt"
        ∷ codes "md"
        ∷ codes "csv"
        ∷ codes "json"
        ∷ codes "log"
        ∷ codes "xml"
        ∷ codes "htm"
        ∷ codes "html"
        ∷ codes "yml"
        ∷ codes "yaml"
        ∷ [])

unfoldable pub is_pdf : (mime name : Text) → Bool
unfolding has_ending
is_pdf mime name = text_eq mime (codes "application/pdf") || has_ending name (codes "pdf" ∷ [])

-- INSERT INTO uploads, with its fresh key
unfoldable pub insert_upload : UploadRow → Query ⊤
insert_upload u d =
    if any (λ r. r.id == u.id) d.uploads
    then (err (pg SqlState.unique_violation), d)
    else if has_user u.user_id d.users
    then (ok tt, record d { uploads = u ∷ d.uploads })
    else (err (pg SqlState.foreign_key_violation), d)

module _ (disk : Disk) where
  abbrev cut : Text → Text
  cut t = take (per_file_text_cap * 3) t

  -- The `catch` of the extraction
  abbrev cut_or_none : Result Text → Option Text
  cut_or_none (ok t) = some (cut t)
  cut_or_none (err e) = none

  unfoldable pub extract_text : (mime name bytes : Text) → Option Text
  unfolding text_like is_pdf
  extract_text mime name bytes =
      if text_like mime name
      then some (cut (disk.utf8 bytes))
      else if is_pdf mime name
      then cut_or_none (disk.pdf_text bytes)
      else none

  unfoldable pub new_upload : ℕ → ℕ → UploadedFile → UploadRow
  unfolding extract_text
  new_upload fresh user file = record {
    id = fresh;
    user_id = user;
    thread_id = none;
    filename = take 200 file.originalname;
    text_content = extract_text file.mimetype file.originalname file.buffer;
  }

  abbrev pub stored_name : ℕ → UploadedFile → Text
  stored_name fresh file = disk.uuid_text fresh ++ take 12 (disk.ext_name file.originalname)

  abbrev pub saved_upload : ℕ → UploadedFile → SavedUpload
  saved_upload fresh file = record {
    id = fresh;
    filename = file.originalname;
    mime = file.mimetype;
    size_bytes = file.size;
    url = codes "/public/uploads/" ++ stored_name fresh file;
  }

  unfoldable pub save : ℕ → ℕ → UploadedFile → Query SavedUpload
  unfolding insert_upload new_upload
  save fresh user file = do
    made ← lift_query disk.make_dir
    written ← lift_query (disk.write_file (stored_name fresh file) file.buffer)
    insert_upload (new_upload fresh user file)
    pure (saved_upload fresh file)

  -- The handler `upload`.
  unfoldable pub upload : ℕ → ℕ → Option UploadedFile → Query SavedUpload
  unfolding save
  upload fresh user none = throw (http 400 (codes "No file provided"))
  upload fresh user (some file) = save fresh user file
