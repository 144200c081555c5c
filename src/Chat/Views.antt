-- ===== src/Chat/Views.antt =====
-- The handler `thread` of src/agent/chat.controller.ts. What it sends of a row is the whole row
-- here.
use micro_manus_services.Base.{ℕ, Bool, true, false, ◌&&◌, List, reverse, ◌==◌, keep}
use micro_manus_services.Db.{Db, ThreadRow, MessageRow, RunRow, ArtifactRow, UploadRow}
use micro_manus_services.Llm.Types.{ChatRole}
use micro_manus_services.World.{Action, gets, ◌>>=◌}
use micro_manus_services.Chat.Handlers.{assert_thread}
use micro_manus_services.Uploads.Context.{in_thread}

-- Rows are oldest first.
pub record ThreadView : Type 0 where
  pub thread : ThreadRow
  pub messages : List MessageRow
  pub runs : List RunRow
  pub artifacts : List ArtifactRow
  pub uploads : List UploadRow

abbrev is_shown : ChatRole → Bool
is_shown ChatRole.user = true
is_shown ChatRole.assistant = true
is_shown ChatRole.tool = false

unfoldable list_for_thread : ℕ → Db → List UploadRow
list_for_thread thread d = reverse (keep (λ u. in_thread thread u.thread_id) d.uploads)

abbrev view_of : ThreadRow → ℕ → Db → ThreadView
unfolding list_for_thread
view_of t id d = record {
  thread = t;
  messages = reverse (keep (λ m. m.thread_id == id && is_shown m.role) d.messages);
  runs = reverse (keep (λ r. r.thread_id == id) d.runs);
  artifacts = reverse (keep (λ a. a.thread_id == id) d.artifacts);
  uploads = list_for_thread id d;
}

unfoldable pub thread_view : ℕ → ℕ → Action ThreadView
unfolding assert_thread view_of
thread_view user id = do t ← assert_thread user id; gets (λ w. view_of t id w.db)
