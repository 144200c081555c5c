-- ===== src/Tools/Registry/Sound.antt =====
-- What the tools of src/tools/tool.registry.ts do to the database, and the worker of src/agent with
-- these tools.
use micro_manus_services.Base.{
  ℕ, ◌≡◌, refl, sym, ap, ◌∙◌, Bool, true, false, ◌&&◌, Option, none, some, [], ◌++◌, ◌==◌,
  if◌then◌else◌, Text, codes, find, any,
}
use mathlib.Core.Path.{subst}
use micro_manus_services.Db.{
  http, Db, Query, Result, ok, err, RunRow, ArtifactRow, throw, then_run, ◌>>=◌,
}
use micro_manus_services.Llm.Types.{Json, ToolCall}
use micro_manus_services.World.{World}
use micro_manus_services.Db.Statements.{is_thread}
use micro_manus_services.Ledger.Sound.{IsSound}
use micro_manus_services.Artifacts.{
  Files, bytes_of, insert_artifact, set_path, allowed_type, has_run, lift_query, new_artifact,
  keep_artifact, create_artifact, has_extension, get_owned, get_by_id, artifact_or_not_found,
  owned_by,
}
use micro_manus_services.Agent.Loop.{ToolOutput, Services}
use micro_manus_services.Agent.Process.{Blocks, Job, process}
use micro_manus_services.Agent.Outcome.{process-IsSound}
use micro_manus_services.Tools.Registry.{
  Toolbox, Tool, then_tool, with_args, text_arg, create_tool, read_tool, run_by, caught_error,
  with_parsed, dispatch, tool_named, execute,
}

-- The second database is the first one but for its artifacts.
pub record IsAbout (d d' : Db) : Type 0 where
  pub about : d' ≡ record d { artifacts = d'.artifacts }

-- A query that writes no table but the artifacts.
pub record IsFiling {A : Type 0} (q : Query A) : Type 0 where
  pub filing : (d : Db) → IsAbout d (q d).1

IsAbout-refl : (d : Db) → IsAbout d d
IsAbout-refl d = record { about = refl }

IsAbout-trans : (d d' d'' : Db) → IsAbout d d' → IsAbout d' d'' → IsAbout d d''
IsAbout-trans d d' d'' h k = record {
  about = k.about ∙ ap (λ (x : Db). record x { artifacts = d''.artifacts }) h.about;
}

after-IsAbout :
    {A B : Type 0} (f : A → Query B) (d : Db) (x : Result A × Db)
    → ((a : A) → IsFiling (f a))
    → IsAbout d x.1
    → IsAbout d (then_run f x).1
after-IsAbout f d (ok a, d') hf h = IsAbout-trans d d' (f a d').1 h ((hf a).filing d')
after-IsAbout f d (err e, d') hf h = h

bind-IsFiling :
    {A B : Type 0} {m : Query A} {f : A → Query B}
    → IsFiling m
    → ((a : A) → IsFiling (f a))
    → IsFiling (m >>= f)
bind-IsFiling {m} {f} hm hf = record { filing = λ d. after-IsAbout f d (m d) hf (hm.filing d) }

lift-IsFiling : {A : Type 0} (r : Result A) → IsFiling (lift_query r)
lift-IsFiling r = record { filing = λ d. IsAbout-refl d }

if-IsAbout :
    {A : Type 0} (b : Bool) (d : Db) (x y : Result A × Db)
    → IsAbout d x.1
    → IsAbout d y.1
    → IsAbout d (if b then x else y).1
if-IsAbout true d x y h k = h
if-IsAbout false d x y h k = k

if-IsFiling :
    {A : Type 0} (b : Bool) (q r : Query A)
    → IsFiling q
    → IsFiling r
    → IsFiling (if b then q else r)
if-IsFiling true q r h k = h
if-IsFiling false q r h k = k

insert-IsFiling : (a : ArtifactRow) → IsFiling (insert_artifact a)
unfolding insert_artifact
insert-IsFiling a = record {
  filing = λ d. if-IsAbout (any (λ b. b.id == a.id) d.artifacts) d _ _ (IsAbout-refl d) (
      if-IsAbout (allowed_type a.type) d _ _
        (if-IsAbout (any (is_thread a.thread_id) d.threads && has_run a.run_id d.runs) d _ _
          (record { about = refl }) (IsAbout-refl d))
        (IsAbout-refl d));
}

set_path-IsFiling : (id : ℕ) (path : Text) → IsFiling (set_path id path)
unfolding set_path
set_path-IsFiling id path = record { filing = λ d. record { about = refl } }

keep-IsFiling :
    (files : Files) (fresh thread run : ℕ) (type title content : Text)
    → IsFiling (keep_artifact files fresh thread run type title content)
unfolding keep_artifact
keep-IsFiling files fresh thread run type title content =
    bind-IsFiling (lift-IsFiling (bytes_of files type title content)) λ bytes.
      bind-IsFiling (insert-IsFiling (new_artifact files fresh thread run type title content)) λ _.
        bind-IsFiling (lift-IsFiling (files.write_file (files.path_of thread fresh type) bytes))
          λ _.
            bind-IsFiling (set_path-IsFiling fresh (files.path_of thread fresh type))
              λ _. lift-IsFiling (ok fresh)

create-IsFiling :
    (files : Files) (fresh thread run : ℕ) (type title content : Text)
    → IsFiling (create_artifact files fresh thread run type title content)
unfolding create_artifact
create-IsFiling files fresh thread run type title content =
    if-IsFiling (has_extension type) (keep_artifact files fresh thread run type title content)
      (throw (http 400 (codes "Unsupported artifact type: " ++ type)))
      (keep-IsFiling files fresh thread run type title content)
      (lift-IsFiling (err (http 400 (codes "Unsupported artifact type: " ++ type))))

found-IsFiling : (a : Option ArtifactRow) → IsFiling (artifact_or_not_found a)
found-IsFiling none = lift-IsFiling (err _)
found-IsFiling (some a) = lift-IsFiling (ok a)

get_by_id-IsFiling : (user : ℕ) (id : Option ℕ) → IsFiling (get_by_id user id)
get_by_id-IsFiling user none = lift-IsFiling (err _)
get_by_id-IsFiling user (some id) = record {
  filing = λ d. (found-IsFiling (find (owned_by user id d.threads) d.artifacts)).filing d;
}

get_owned-IsFiling :
    (read : Text → Option ℕ) (user : ℕ) (id : Text) → IsFiling (get_owned read user id)
unfolding get_owned
get_owned-IsFiling read user id = get_by_id-IsFiling user (read id)

then_tool-IsFiling :
    {A : Type 0} (tb : Toolbox) (f : A → ToolOutput) {q : Query A}
    → IsFiling q
    → IsFiling (λ d. then_tool tb f (q d))
then_tool-IsFiling {A} tb f {q} h = record { filing = λ d. go d (q d) (h.filing d) }
  where
    go : (d : Db) (x : Result A × Db) → IsAbout d x.1 → IsAbout d (then_tool tb f x).1
    go d (ok a, d') k = k
    go d (err e, d') k = k

with_args-IsFiling :
    {A : Type 0} (tb : Toolbox) (r : Result A) {f : A → Query ToolOutput}
    → ((a : A) → IsFiling (f a))
    → IsFiling (with_args tb r f)
with_args-IsFiling tb (ok a) {f} h = record { filing = (h a).filing }
with_args-IsFiling tb (err e) h = record { filing = IsAbout-refl }

module _ (tb : Toolbox) (r : RunRow) where
  run_by-IsFiling : (t : Tool) (fresh : ℕ) (args : Json) → IsFiling (run_by tb t fresh r args)
  unfolding run_by create_tool read_tool
  run_by-IsFiling Tool.web_search_tool fresh args = record { filing = IsAbout-refl }
  run_by-IsFiling Tool.fetch_url_tool fresh args = record { filing = IsAbout-refl }
  run_by-IsFiling Tool.create_artifact_tool fresh args = record {
    filing =
        (with_args-IsFiling tb (text_arg tb (codes "type") (codes "md") args) λ type.
          with_args-IsFiling tb (text_arg tb (codes "title") (codes "Untitled") args) λ title.
            with_args-IsFiling tb (text_arg tb (codes "content") [] args) λ content.
              then_tool-IsFiling tb _
                (create-IsFiling tb.files fresh r.thread_id r.id type title content)).filing;
  }
  run_by-IsFiling Tool.read_artifact_tool fresh args = record {
    filing =
        (with_args-IsFiling tb (text_arg tb (codes "artifactId") [] args)
          λ id. then_tool-IsFiling tb _ (get_owned-IsFiling tb.read_uuid r.user_id id)).filing;
  }

  caught-IsAbout :
      (d : Db) (x : Result ToolOutput × Db) → IsAbout d x.1 → IsAbout d (caught_error tb x).1
  caught-IsAbout d (ok out, d') h = h
  caught-IsAbout d (err e, d') h = h

  dispatch-IsAbout :
      (t : Option Tool) (fresh : ℕ) (tc : ToolCall) (d : Db)
      → IsAbout d (dispatch tb t fresh r tc d).1
  unfolding dispatch with_parsed
  dispatch-IsAbout none fresh tc d = IsAbout-refl d
  dispatch-IsAbout (some t) fresh tc d = go (tb.parse _)
    where
      go : (parsed : Result Json) → IsAbout d (with_parsed tb t fresh r parsed d).1
      go (err e) = IsAbout-refl d
      go (ok args) =
          caught-IsAbout d (run_by tb t fresh r args d) ((run_by-IsFiling t fresh args).filing d)

  -- A tool call writes nothing but the artifacts.
  pub execute_artifacts :
      (tc : ToolCall) (w : World)
      → (execute tb r tc w).1
        ≡ record w { db = record w.db { artifacts = (execute tb r tc w).1.db.artifacts } }
  unfolding execute
  execute_artifacts tc w =
      ap (λ (d : Db). record w { db = d })
        (dispatch-IsAbout (tool_named tc.name) (tb.fresh tc) tc w.db).about

  execute-IsSound : (tc : ToolCall) (w : World) → IsSound w.db → IsSound (execute tb r tc w).1.db
  execute-IsSound tc w v =
      subst (λ (x : World). IsSound x.db) (sym (execute_artifacts tc w))
        (record { balanced = v.balanced; charged = v.charged; exclusive = v.exclusive })

module _ (tb : Toolbox) (sv : Services) (bl : Blocks) (decrypt : Text → Result Text) (message : ℕ)
    (others_keep : (i : ℕ) (w : World) → IsSound w.db → IsSound (sv.others i w).db) where
  -- A job of the worker with these tools keeps every balance and every charge right and a thread's
  -- running run alone, if the other requests do: whatever the model answers, and whatever the
  -- search, the pages and the files are.
  pub process_tools-IsSound :
      (j : Job) (w : World)
      → IsSound w.db
      → IsSound (process (record sv { execute = execute tb }) bl decrypt message j w).1.db
  process_tools-IsSound =
      process-IsSound (record sv { execute = execute tb }) bl decrypt message (execute-IsSound tb)
        others_keep
