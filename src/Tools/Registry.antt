-- ===== src/Tools/Registry.antt =====
-- src/tools/tool.registry.ts, and the tools web_search, create_artifact and read_artifact;
-- fetch_url is in Tools/FetchUrl. The definitions that the model is shown, which are constant
-- texts, are left out.
pub mod Sound
pub mod Documents
use micro_manus_services.Base.{
  ℕ, zero, suc, ◌+◌, ◌-◌, ◌*◌, ◌/◌, ◌%◌, ◌≤◌, ◌<◌, max, String, ⊤, ◌≡◌, refl, sym, ap, ◌∙◌, ◌≢◌,
  ◌⊎◌, inl, inr, Bool, true, false, not, ◌&&◌, ◌||◌, Option, none, some, List, [], ◌∷◌, ◌++◌, map,
  reverse, arith, ltb, leb, ◌==◌, if◌then◌else◌, ltb→lt, lt→ltb, leb→le, ==_iff, tests, Bool-cases,
  Option-cases, is_some, Text, codes, length, take, drop, head?, last?, keep, find, any, all,
  update_where, update_where-none, length-append, length-take-le, All, All-append, All-map, text_eq,
}
use micro_manus_services.Db.{Db, Query, Result, ok, err, Error, http, other, ArtifactRow, RunRow}
use micro_manus_services.Billing.{message_of}
use micro_manus_services.RunEvents.{Source}
use micro_manus_services.Llm.Types.{Json, Members, ToolCall}
use micro_manus_services.World.{World}
use micro_manus_services.Artifacts.{Files, create_artifact, get_owned}
use micro_manus_services.Agent.Loop.{ToolOutput, args_text}
use micro_manus_services.Tools.FetchUrl.{Net, fetch_content}

pub record SearchHit : Type 0 where
  pub title : Text
  pub url : Text
  pub content : Option Text

-- What the tools call: files, uuids read and written, `JSON.parse`, `String(…)` of a value and of a
-- number, the key and the answer of Tavily, the domain of an address, the network, and the summary
-- line of fetch_url.
pub record Toolbox : Type 0 where
  pub files : Files
  pub fresh : ToolCall → ℕ
  pub read_uuid : Text → Option ℕ
  pub uuid_text : ℕ → Text
  pub parse : Text → Result Json
  pub value_text : Json → Text
  pub number_text : ℕ → Text
  pub tavily_key : Option Text
  pub tavily : Text → Result (List SearchHit)
  pub domain_of : Text → Text
  pub net : Net
  pub fetch_summary : Text → Text

abbrev pub text_output : Text → Text → ToolOutput
text_output content summary = record {
  content = content;
  summary = summary;
  artifact_id = none;
  artifact_type = none;
  artifact_title = none;
  sources = none;
}

abbrev member_of : Text → Members → Option Json
member_of name Members.end = none
member_of name (Members.member k v ms) =
    let rest = member_of name ms in if text_eq k name then some v else rest

-- The map of the constructor, by the names of the tools.
pub data Tool : Type 0 where
  web_search_tool fetch_url_tool create_artifact_tool read_artifact_tool : Tool

abbrev pub tool_named : Text → Option Tool
tool_named name =
    if text_eq name (codes "web_search")
    then some Tool.web_search_tool
    else if text_eq name (codes "fetch_url")
    then some Tool.fetch_url_tool
    else if text_eq name (codes "create_artifact")
    then some Tool.create_artifact_tool
    else if text_eq name (codes "read_artifact")
    then some Tool.read_artifact_tool
    else none

module _ (tb : Toolbox) where
  -- `String(args.x ?? default)`; the members of a parsed object have different names, and `String`
  -- is taken not to throw.
  abbrev text_or : Text → Option Json → Text
  text_or default none = default
  text_or default (some Json.null) = default
  text_or default (some (Json.str t)) = t
  text_or default (some (Json.bool b)) = tb.value_text (Json.bool b)
  text_or default (some (Json.num n)) = tb.value_text (Json.num n)
  text_or default (some (Json.arr xs)) = tb.value_text (Json.arr xs)
  text_or default (some (Json.obj ms)) = tb.value_text (Json.obj ms)

  -- A member of null is a TypeError; the other values have no member of the names that the tools
  -- read.
  abbrev pub text_arg : Text → Text → Json → Result Text
  text_arg name default Json.null = err (other none (codes "Cannot read properties of null"))
  text_arg name default (Json.obj ms) = ok (text_or default (member_of name ms))
  text_arg name default (Json.bool b) = ok default
  text_arg name default (Json.num n) = ok default
  text_arg name default (Json.str t) = ok default
  text_arg name default (Json.arr xs) = ok default

  abbrev per_hit_chars : ℕ
  per_hit_chars = 2000

  abbrev or_blank : Option Text → Text
  or_blank none = []
  or_blank (some t) = t

  abbrev hit_text : ℕ → SearchHit → Text
  hit_text i h =
      codes "["
      ++ (tb.number_text i
          ++ (codes "] "
              ++ (h.title
                  ++ (10 ∷ codes "URL: "
                      ++ (h.url ++ (10 ∷ take per_hit_chars (or_blank h.content)))))))

  -- `.join('\n\n')`
  unfoldable hits_text : ℕ → List SearchHit → Text
  hits_text i [] = []
  hits_text i (h ∷ []) = hit_text i h
  hits_text i (h ∷ k ∷ hs) = hit_text i h ++ (10 ∷ 10 ∷ hits_text (suc i) (k ∷ hs))

  abbrev search_content : List SearchHit → Text
  unfolding hits_text
  search_content [] = codes "No results."
  search_content (h ∷ hs) = hits_text 1 (h ∷ hs)

  abbrev source_of : SearchHit → Source
  source_of h = record { title = h.title; url = h.url; domain = tb.domain_of h.url }

  abbrev search_output : Text → List SearchHit → ToolOutput
  unfolding search_content
  search_output query hits = record {
    content = search_content hits;
    summary = tb.number_text (length hits) ++ (codes " results for “" ++ (query ++ codes "”"));
    artifact_id = none;
    artifact_type = none;
    artifact_title = none;
    sources = some (map source_of (take 5 hits));
  }

  abbrev then_result : {A B : Type 0} → (A → Result B) → Result A → Result B
  then_result f (ok a) = f a
  then_result f (err e) = err e

  abbrev search_for : Text → Result ToolOutput
  unfolding search_output
  search_for query = then_result (λ hits. ok (search_output query hits)) (tb.tavily query)

  abbrev search_with : Option Text → Json → Result ToolOutput
  unfolding search_for
  search_with none args = err (http 503 (codes "Search is not configured (TAVILY_API_KEY)"))
  search_with (some []) args = err (http 503 (codes "Search is not configured (TAVILY_API_KEY)"))
  search_with (some (c ∷ cs)) args =
      then_result (λ q. search_for (take 400 q)) (text_arg (codes "query") [] args)

  unfoldable pub web_search : Json → Result ToolOutput
  unfolding search_with
  web_search args = search_with tb.tavily_key args

  unfoldable fetch_url : Json → Result ToolOutput
  unfolding fetch_content
  fetch_url args =
      then_result
        (λ url.
          then_result (λ content. ok (text_output content (tb.fetch_summary url)))
            (fetch_content tb.net url))
        (text_arg (codes "url") [] args)

  abbrev created_output : Text → Text → ℕ → ToolOutput
  created_output type title id = record {
    content =
        codes "Artifact created (id: "
        ++ (tb.uuid_text id
            ++ (codes "). The user can preview and download \""
                ++ (title
                    ++ (codes "\" ("
                        ++ (type
                            ++ codes
                                ") in this chat. Mention that the file is ready — do not repeat its full content in your reply.")))));
    summary = title;
    artifact_id = some id;
    artifact_type = some type;
    artifact_title = some title;
    sources = none;
  }

  abbrev pub then_tool : {A : Type 0} → (A → ToolOutput) → Result A × Db → Result ToolOutput × Db
  then_tool f (ok a, d) = (ok (f a), d)
  then_tool f (err e, d) = (err e, d)

  abbrev pub with_args : {A : Type 0} → Result A → (A → Query ToolOutput) → Query ToolOutput
  with_args (ok a) f d = f a d
  with_args (err e) f d = (err e, d)

  unfoldable pub create_tool : ℕ → RunRow → Json → Query ToolOutput
  unfolding create_artifact
  create_tool fresh r args = with_args (text_arg (codes "type") (codes "md") args) λ type.
      with_args (text_arg (codes "title") (codes "Untitled") args) λ title.
        with_args (text_arg (codes "content") [] args) λ content d.
          then_tool (created_output type title)
            (create_artifact tb.files fresh r.thread_id r.id type title content d)

  abbrev stored_content : Option Text → Text
  stored_content none = codes "(no stored content)"
  stored_content (some t) = t

  abbrev read_output : ArtifactRow → ToolOutput
  read_output a =
      text_output (stored_content a.content_md) (codes "Read “" ++ (a.title ++ codes "”"))

  unfoldable pub read_tool : RunRow → Json → Query ToolOutput
  unfolding get_owned
  read_tool r args =
      with_args (text_arg (codes "artifactId") [] args)
        λ id d. then_tool read_output (get_owned tb.read_uuid r.user_id id d)

  unfoldable pub run_by : Tool → ℕ → RunRow → Json → Query ToolOutput
  unfolding web_search fetch_url create_tool read_tool
  run_by Tool.web_search_tool fresh r args d = (web_search args, d)
  run_by Tool.fetch_url_tool fresh r args d = (fetch_url args, d)
  run_by Tool.create_artifact_tool fresh r args d = create_tool fresh r args d
  run_by Tool.read_artifact_tool fresh r args d = read_tool r args d

  -- `catch (e)`: an error is an answer to the model too.
  abbrev pub caught_error : Result ToolOutput × Db → ToolOutput × Db
  caught_error (ok out, d) = (out, d)
  caught_error (err e, d) = (
    text_output (codes "Tool error: " ++ message_of e) (codes "error: " ++ take 80 (message_of e)),
    d,
  )

  abbrev pub with_parsed : Tool → ℕ → RunRow → Result Json → Db → ToolOutput × Db
  unfolding run_by
  with_parsed t fresh r (err e) d =
      (text_output (codes "Invalid tool arguments (bad JSON).") (codes "bad tool args"), d)
  with_parsed t fresh r (ok args) d = caught_error (run_by t fresh r args d)

  abbrev pub dispatch : Option Tool → ℕ → RunRow → ToolCall → Db → ToolOutput × Db
  unfolding with_parsed
  dispatch none fresh r tc d =
      (text_output (codes "Unknown tool: " ++ tc.name) (codes "unknown tool " ++ tc.name), d)
  dispatch (some t) fresh r tc d = with_parsed t fresh r (tb.parse (args_text tc.args)) d

  abbrev in_world : World → ToolOutput × Db → ToolOutput × World
  in_world w (out, d) = (out, record w { db = d })

  -- `execute`, at the context of a run.
  unfoldable pub execute : RunRow → ToolCall → World → ToolOutput × World
  unfolding dispatch
  execute r tc w = in_world w (dispatch (tool_named tc.name) (tb.fresh tc) r tc w.db)
