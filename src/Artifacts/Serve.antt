-- ===== src/Artifacts/Serve.antt =====
-- src/artifacts/artifacts.controller.ts: what is sent of a file. The key of the request is a uuid
-- by then.
use micro_manus_services.Base.{
  ℕ, Bool, ◌&&◌, ◌||◌, Option, none, some, [], ◌∷◌, ◌++◌, leb, ◌==◌, if◌then◌else◌, Text, codes,
  keep, text_eq,
}
use micro_manus_services.Base.Chars.{trim}
use micro_manus_services.Db.{Query, ArtifactRow, pure, ◌>>=◌}
use micro_manus_services.Artifacts.{get_by_id}

pub record Meta : Type 0 where
  pub id : ℕ
  pub type : Text
  pub title : Text
  pub content : Option Text

-- `Cache-Control` is always 'private, max-age=3600', and the file is shown in line.
pub record Inline : Type 0 where
  pub path : Text
  pub content_type : Text
  pub security_policy : Option Text

pub record Attachment : Type 0 where
  pub path : Text
  pub filename : Text
  pub content_type : Text

-- `MIME[type] ?? 'application/octet-stream'`, for the types that the table allows.
abbrev mime_of : Text → Text
mime_of type =
    if text_eq type (codes "pdf")
    then codes "application/pdf"
    else if text_eq type (codes "md")
    then codes "text/markdown; charset=utf-8"
    else if text_eq type (codes "html")
    then codes "text/html; charset=utf-8"
    else if text_eq type (codes "csv")
    then codes "text/csv; charset=utf-8"
    else if text_eq type (codes "json")
    then codes "application/json; charset=utf-8"
    else if text_eq type (codes "txt")
    then codes "text/plain; charset=utf-8"
    else codes "application/octet-stream"

-- `\w`, `-` and the space
abbrev pub is_name_char : ℕ → Bool
is_name_char c =
    (leb 48 c && leb c 57)
    || (leb 65 c && leb c 90)
    || (leb 97 c && leb c 122)
    || c == 95
    || c == 45
    || c == 32

abbrev pub or_artifact : Text → Text
or_artifact [] = codes "artifact"
or_artifact (c ∷ cs) = c ∷ cs

unfoldable pub safe_name : Text → Text
unfolding trim
safe_name title = or_artifact (trim (keep is_name_char title))

module _ (abs_path : Text → Text) where
  abbrev meta_of : ArtifactRow → Meta
  meta_of a = record { id = a.id; type = a.type; title = a.title; content = a.content_md }

  unfoldable pub meta : ℕ → ℕ → Query Meta
  meta user id = get_by_id user (some id) >>= λ a. pure (meta_of a)

  abbrev policy_of : Text → Option Text
  policy_of type =
      if text_eq type (codes "html")
      then some (codes "sandbox allow-scripts allow-popups")
      else none

  abbrev inline_of : ArtifactRow → Inline
  inline_of a = record {
    path = abs_path a.file_path;
    content_type = mime_of a.type;
    security_policy = policy_of a.type;
  }

  unfoldable pub file : ℕ → ℕ → Query Inline
  file user id = get_by_id user (some id) >>= λ a. pure (inline_of a)

  unfoldable pub attachment_of : ArtifactRow → Attachment
  unfolding safe_name
  attachment_of a = record {
    path = abs_path a.file_path;
    filename = safe_name a.title ++ 46 ∷ a.type;
    content_type = mime_of a.type;
  }

  unfoldable pub download : ℕ → ℕ → Query Attachment
  unfolding attachment_of
  download user id = get_by_id user (some id) >>= λ a. pure (attachment_of a)
