-- ===== src/Chat/Transaction.antt =====
-- The database side of src/agent/chat.controller.ts: the transaction that charges for a run,
-- threads, and the linking of attachments. Rows get their fresh keys as arguments.
use micro_manus_services.Base.{
  ℕ, ⊤, Bool, false, not, ◌&&◌, Option, none, some, List, [], ◌∷◌, ◌==◌, if◌then◌else◌, Text, codes,
  keep, any, update_where,
}
use micro_manus_services.Base.Int.{ℤ, negsuc}
use micro_manus_services.Db.Statements.{
  is_thread, update_credits, insert_message, insert_run, insert_ledger,
}
use micro_manus_services.Ledger.Balance.{can_pay}
use micro_manus_services.Llm.Types.{ChatRole}
use micro_manus_services.Db.{
  Db, Query, ok, err, pg, SqlState, Reason, Ref, ThreadRow, MessageRow, RunRow, RunStatus,
  UploadRow, pure, ◌>>=◌, ◌>>◌,
}

-- The validated body of a message. `attachment_ids` are keys of uploads.
pub record SendMessage : Type 0 where
  pub content : Text
  pub model_id : Text
  pub attachment_ids : List ℕ

-- `uploads.attachToThread` (src/uploads/uploads.service.ts)
abbrev pub is_attached : ℕ → List ℕ → UploadRow → Bool
is_attached user ids u = u.user_id == user && any (λ i. i == u.id) ids

unfoldable pub attach_to_thread : ℕ → ℕ → List ℕ → Query ⊤
attach_to_thread user thread ids d = (
  ok tt,
  record d {
    uploads =
        update_where (is_attached user ids) (λ u. record u { thread_id = some thread }) d.uploads;
  },
)

abbrev pub new_run : ℕ → ℕ → ℕ → Text → ℕ → RunRow
new_run run thread user model now = record {
  id = run;
  thread_id = thread;
  user_id = user;
  model_id = model;
  status = RunStatus.running;
  steps = [];
  error = none;
  started_at = now;
}

abbrev pub user_message : ℕ → ℕ → Text → MessageRow
user_message id thread content = record {
  id = id;
  thread_id = thread;
  role = ChatRole.user;
  content = content;
  archived = false;
}

module _ (run message now : ℕ) where
  -- The rest of the transaction, once a credit is deducted.
  abbrev pub after_deduction : ℕ → ℕ → SendMessage → List ℤ → Query (Option (ℕ × ℤ))
  after_deduction user thread dto [] = pure none
  after_deduction user thread dto (credits ∷ _) = do
    insert_message (user_message message thread dto.content)
    insert_run (new_run run thread user dto.model_id now)
    insert_ledger user (negsuc 0) Reason.debit (Ref.ref_run run)
    pure (some (run, credits))

  -- The transaction of `sendMessage`.
  unfoldable pub send_tx : ℕ → ℕ → SendMessage → Query (Option (ℕ × ℤ))
  send_tx user thread dto = do
    deducted ← update_credits (can_pay user) (negsuc 0)
    after_deduction user thread dto deducted

abbrev pub new_thread : ℕ → ℕ → ThreadRow
new_thread id user = record { id = id; user_id = user; title = codes "New chat"; model_id = none }

unfoldable pub create_thread : ℕ → ℕ → Query ℕ
create_thread id user d =
    if any (is_thread id) d.threads
    then (err (pg SqlState.unique_violation), d)
    else if any (λ u. u.id == user) d.users
    then (ok id, record d { threads = new_thread id user ∷ d.threads })
    else (err (pg SqlState.foreign_key_violation), d)

abbrev pub has_thread : Option ℕ → ℕ → Bool
has_thread none id = false
has_thread (some t) id = t == id

-- `DELETE FROM threads`, and the rows that go with it by `ON DELETE CASCADE`; the usage of a
-- deleted run goes with its thread.
abbrev pub without_thread : ℕ → Db → Db
without_thread id d = record d {
  threads = keep (λ t. not (t.id == id)) d.threads;
  messages = keep (λ m. not (m.thread_id == id)) d.messages;
  runs = keep (λ r. not (r.thread_id == id)) d.runs;
  usage_events = keep (λ u. not (u.thread_id == id)) d.usage_events;
  uploads = keep (λ u. not (has_thread u.thread_id id)) d.uploads;
  summaries = keep (λ s. not (s.thread_id == id)) d.summaries;
  artifacts = keep (λ a. not (a.thread_id == id)) d.artifacts;
}
