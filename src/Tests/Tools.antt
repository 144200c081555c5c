-- ===== src/Tests/Tools.antt =====
-- The tools and their files at concrete inputs.
use micro_manus_services.Base.{
  ℕ, ◌≡◌, refl, none, [], ◌∷◌, ◌==◌, if◌then◌else◌, Text, codes, head?, text_eq, true, false, some,
}
use micro_manus_services.Errors.{catch}
use micro_manus_services.Db.{pg, SqlState, Result, ok, err, other, Db}
use micro_manus_services.Ledger.Sound.{IsSound}
use micro_manus_services.Llm.Types.{Json, Members, ToolCall}
use micro_manus_services.World.{World}
use micro_manus_services.Artifacts.{
  Files, create_artifact, get_owned, has_extension, insert_artifact, set_path, keep_artifact,
}
use micro_manus_services.Agent.Process.{process}
use micro_manus_services.Artifacts.Serve.{Attachment}
use micro_manus_services.Tools.Registry.{
  Toolbox, text_output, execute, run_by, create_tool, read_tool, web_search,
}
use micro_manus_services.Tools.Registry.Sound.{execute_artifacts, process_tools-IsSound}
use micro_manus_services.Tools.Registry.Documents.{filed, create_artifact-get_owned}
use micro_manus_services.Tests.Data.{
  sample, sample-IsSound, world, services, blocks, decrypted, job, running_run,
}
use micro_manus_services.Tests.Pages.{net}

abbrev files : Files
files = record {
  render_pdf = λ title content. ok content;
  parse_json = λ t. ok Json.null;
  write_file = λ path bytes. ok tt;
  path_of = λ thread artifact type. codes "5/7.md";
}

-- The arguments are either a file to make or the key of one to read.
abbrev parse : Text → Result Json
parse [] = err (other none (codes "Unexpected end of JSON input"))
parse (c ∷ cs) =
    if c == 123
    then ok (Json.obj (Members.member (codes "content") (Json.str (codes "Hi")) Members.end))
    else ok (Json.obj (Members.member (codes "artifactId") (Json.str (c ∷ cs)) Members.end))

abbrev toolbox : Toolbox
toolbox = record {
  files = files;
  fresh = λ tc. 7;
  read_uuid = λ t. head? t;
  uuid_text = λ n. n ∷ [];
  parse = parse;
  value_text = λ j. [];
  number_text = λ n. n ∷ [];
  tavily_key = none;
  tavily = λ q. ok [];
  domain_of = λ u. u;
  net = net;
  fetch_summary = λ u. u;
}

abbrev creating : ToolCall
creating = record { id = codes "c1"; name = codes "create_artifact"; args = codes "{}" }

abbrev reading : ToolCall
reading = record { id = codes "c2"; name = codes "read_artifact"; args = 7 ∷ [] }

abbrev searching : ToolCall
searching = record { id = codes "c3"; name = codes "web_search"; args = codes "{}" }

abbrev written : World
written = (execute toolbox running_run creating world).1

create_then_read :
    (execute toolbox running_run reading written).0
    ≡ text_output (codes "Hi") (codes "Read “Untitled”")
unfolding execute run_by create_tool read_tool create_artifact keep_artifact insert_artifact
    set_path get_owned has_extension text_eq
create_then_read = refl

-- Without the key of Tavily the model is told so, and the run goes on.
search_unconfigured :
    (execute toolbox running_run searching world).0
    ≡ text_output
        (codes "Tool error: Search is not configured (TAVILY_API_KEY)")
        (codes "error: Search is not configured (TAVILY_API_KEY)")
unfolding execute run_by web_search text_eq
search_unconfigured = refl

execute_artifacts_example :
    written ≡ record world { db = record sample { artifacts = written.db.artifacts } }
execute_artifacts_example = execute_artifacts toolbox running_run creating world

process_tools-IsSound_example :
    IsSound
      (process (record services { execute = execute toolbox }) blocks decrypted 22 job world).1.db
process_tools-IsSound_example =
    process_tools-IsSound toolbox services blocks decrypted 22 (λ i w v. v) job world sample-IsSound

abbrev made : ℕ
made = 7

-- The owner of the thread reads the file; another user does not.
create_artifact-get_owned_example :
    (made ≡ made)
    × ((get_owned
          (λ t. head? t)
          1
          (7 ∷ [])
          (create_artifact files 7 5 10 (codes "md") (codes "T") (codes "Hi") sample).1).0
        ≡ ok (filed files 7 5 10 (codes "md") (codes "T") (codes "Hi") sample))
unfolding create_artifact keep_artifact insert_artifact set_path has_extension text_eq
create_artifact-get_owned_example =
    create_artifact-get_owned files 7 5 10 (codes "md") (codes "T") (codes "Hi") sample
      (λ t. head? t) 1 7 (7 ∷ []) refl refl

-- The type "constructor" passes the check of the service, and the table refuses it: the client
-- would see a 500.
abbrev inherited : Result ℕ
inherited = (create_artifact files 7 5 10 (codes "constructor") (codes "T") (codes "Hi") sample).0

inherited_type : inherited ≡ err (pg SqlState.check_violation)
unfolding create_artifact keep_artifact insert_artifact set_path has_extension text_eq
inherited_type = refl

violation_answered :
    catch true false (pg SqlState.check_violation)
    ≡ some (record { status = 500; message = codes "Something went wrong" })
unfolding catch
violation_answered = refl

abbrev odd_title : Db
odd_title = (create_artifact files 7 5 10 (codes "md") (codes "../a\"b") (codes "Hi") sample).1

abbrev offered : Attachment
offered = record {
  path = codes "5/7.md";
  filename = codes "ab.md";
  content_type = codes "text/markdown; charset=utf-8";
}
