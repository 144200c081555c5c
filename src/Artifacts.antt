-- ===== src/Artifacts.antt =====
-- src/artifacts/artifact.service.ts: the files that a run makes. Rendering, `JSON.parse`, the
-- writing of a file and the joining of a path are parameters; the size of a file, which the code
-- only writes, is left out.
pub mod Serve
pub mod Named
use micro_manus_services.Base.{
  ◌&&◌, ℕ, ⊤, Bool, true, ◌||◌, Option, none, some, List, [], ◌∷◌, ◌++◌, ◌==◌, if◌then◌else◌, Text,
  codes, take, find, any, update_where, text_eq,
}
use micro_manus_services.Db.{
  Query, Result, ok, err, http, pg, SqlState, ArtifactRow, ThreadRow, pure, throw, ◌>>=◌, ◌>>◌,
  RunRow,
}
use micro_manus_services.Db.Statements.{is_run, is_thread}
use micro_manus_services.Llm.Types.{Json}

abbrev known_types : List Text
known_types =
    codes "pdf" ∷ codes "md" ∷ codes "html" ∷ codes "csv" ∷ codes "json" ∷ codes "txt" ∷ []

-- The names that `EXT`, an object literal, inherits: `EXT[type]` is truthy for them too.
abbrev inherited_names : List Text
inherited_names =
    codes "constructor"
    ∷ codes "__proto__"
    ∷ codes "hasOwnProperty"
    ∷ codes "isPrototypeOf"
    ∷ codes "propertyIsEnumerable"
    ∷ codes "toLocaleString"
    ∷ codes "toString"
    ∷ codes "valueOf"
    ∷ codes "__defineGetter__"
    ∷ codes "__defineSetter__"
    ∷ codes "__lookupGetter__"
    ∷ codes "__lookupSetter__"
    ∷ []

abbrev among_names : Text → List Text → Bool
among_names t names = any (λ n. text_eq n t) names

-- `!!EXT[type]`
unfoldable pub has_extension : Text → Bool
has_extension type = among_names type known_types || among_names type inherited_names

pub record Files : Type 0 where
  pub render_pdf : (title content : Text) → Result Text
  pub parse_json : Text → Result Json
  pub write_file : (path bytes : Text) → Result ⊤
  pub path_of : (thread artifact : ℕ) (type : Text) → Text

-- CHECK (type IN …), which allows one type more.
abbrev pub allowed_type : Text → Bool
allowed_type type = among_names type (codes "xlsx" ∷ known_types)

abbrev pub has_run : Option ℕ → List RunRow → Bool
has_run none rs = true
has_run (some run) rs = any (is_run run) rs

-- INSERT INTO artifacts, with its fresh key
unfoldable pub insert_artifact : ArtifactRow → Query ⊤
insert_artifact a d =
    if any (λ b. b.id == a.id) d.artifacts
    then (err (pg SqlState.unique_violation), d)
    else if allowed_type a.type
    then (if any (is_thread a.thread_id) d.threads && has_run a.run_id d.runs
        then (ok tt, record d { artifacts = a ∷ d.artifacts })
        else (err (pg SqlState.foreign_key_violation), d))
    else (err (pg SqlState.check_violation), d)

-- UPDATE artifacts SET file_path = $2 WHERE id = $1
unfoldable pub set_path : ℕ → Text → Query ⊤
set_path id path d = (
  ok tt,
  record d {
    artifacts = update_where (λ a. a.id == id) (λ a. record a { file_path = path }) d.artifacts;
  },
)

abbrev pub lift_query : {A : Type 0} → Result A → Query A
lift_query r d = (r, d)

abbrev checked_json : Text → Result Json → Result Text
checked_json content (ok j) = ok content
checked_json content (err e) = err e

module _ (files : Files) where
  abbrev pub bytes_of : Text → Text → Text → Result Text
  bytes_of type title content =
      if text_eq type (codes "pdf")
      then files.render_pdf title content
      else if text_eq type (codes "json")
      then checked_json content (files.parse_json content)
      else ok content

  abbrev pub new_artifact : ℕ → ℕ → ℕ → Text → Text → Text → ArtifactRow
  new_artifact fresh thread run type title content = record {
    id = fresh;
    thread_id = thread;
    run_id = some run;
    type = type;
    title = take 200 title;
    file_path = [];
    content_md = some content;
  }

  unfoldable pub keep_artifact : ℕ → ℕ → ℕ → Text → Text → Text → Query ℕ
  unfolding insert_artifact set_path
  keep_artifact fresh thread run type title content = do
    bytes ← lift_query (bytes_of type title content)
    insert_artifact (new_artifact fresh thread run type title content)
    written ← lift_query (files.write_file (files.path_of thread fresh type) bytes)
    set_path fresh (files.path_of thread fresh type)
    pure fresh

  -- The statements stand each for itself: a failed write leaves the row.
  unfoldable pub create_artifact : ℕ → ℕ → ℕ → Text → Text → Text → Query ℕ
  unfolding has_extension keep_artifact
  create_artifact fresh thread run type title content =
      if has_extension type
      then keep_artifact fresh thread run type title content
      else throw (http 400 (codes "Unsupported artifact type: " ++ type))

abbrev owns_thread : ℕ → List ThreadRow → ArtifactRow → Bool
owns_thread user ts a = any (λ t. t.id == a.thread_id && (t.user_id == user)) ts

abbrev pub owned_by : ℕ → ℕ → List ThreadRow → ArtifactRow → Bool
owned_by user id ts a = a.id == id && owns_thread user ts a

abbrev pub artifact_or_not_found : Option ArtifactRow → Query ArtifactRow
artifact_or_not_found none = throw (http 404 (codes "Artifact not found"))
artifact_or_not_found (some a) = pure a

-- The query with its JOIN; the id of the request is read as a uuid.
abbrev pub get_by_id : ℕ → Option ℕ → Query ArtifactRow
get_by_id user none d = throw (pg SqlState.invalid_text_representation) d
get_by_id user (some id) d = artifact_or_not_found (find (owned_by user id d.threads) d.artifacts) d

unfoldable pub get_owned : (Text → Option ℕ) → ℕ → Text → Query ArtifactRow
get_owned read_uuid user id = get_by_id user (read_uuid id)
