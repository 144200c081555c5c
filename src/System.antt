-- ===== src/System.antt =====
-- What writes to the tables, as a transition system: each step is one transaction, or one statement
-- that commits by itself, of a handler or worker, whatever it ends in. A sequence of steps is an
-- order in which those of any number of requests and jobs take effect, each as a whole: what two
-- transactions that run at once do to each other at READ COMMITTED is not in it. The sessions are a
-- table of their own (Auth/Sessions), which the ledger and the runs have nothing to do with.
pub mod Frame
use micro_manus_services.Base.{
  ℕ, ◌≡◌, inl, inr, Option, List, [], ◌∷◌, ◌==◌, Bool-cases, Text, any, All,
}
use micro_manus_services.Base.Int.{ℤ, pos, ◌≤ℤ◌}
use micro_manus_services.Db.{
  Db, Result, RunRow, SummaryRow, MessageRow, ArtifactRow, UploadRow, tx, empty_db,
}
use micro_manus_services.System.Frame.{
  framed-IsSound, archive_tx-SameBooks, insert_artifact-SameBooks, set_path-SameBooks,
  insert_upload-SameBooks, upsert_key-SameBooks, delete_key-SameBooks,
}
use micro_manus_services.Memory.{archive_tx}
use micro_manus_services.Artifacts.{insert_artifact, set_path}
use micro_manus_services.Uploads.Save.{insert_upload}
use micro_manus_services.Keys.Probe.{ProbeResult}
use micro_manus_services.Keys.Store.{upsert_key, delete_key}
use micro_manus_services.Db.Statements.{is_thread}
use micro_manus_services.Ledger.{balance, Charged, IsExclusive}
use micro_manus_services.Ledger.Sound.{IsSound}
use micro_manus_services.Llm.Types.{NormUsage}
use micro_manus_services.RunEvents.{RunStep}
use micro_manus_services.Billing.{Config, ConstructEvent, redeem, handle_webhook}
use micro_manus_services.Billing.Coupon.{redeem-IsSound}
use micro_manus_services.Billing.Webhook.{handle_webhook-IsSound}
use micro_manus_services.Admin.{request_grant}
use micro_manus_services.Admin.Grants.{request_grant-IsSound}
use micro_manus_services.Auth.Login.{Decoded, login_with_id_token}
use micro_manus_services.Auth.SignIn.{login_with_id_token-IsSound}
use micro_manus_services.Chat.Transaction.{
  SendMessage, send_tx, create_thread, attach_to_thread, without_thread,
}
use micro_manus_services.Chat.Charge.{send_tx-IsSound}
use micro_manus_services.Chat.Sending.{Unused}
use micro_manus_services.Chat.Delete.{without_thread-IsSound}
use micro_manus_services.Usage.Cost.{record_usage}
use micro_manus_services.Agent.Finalize.{fail_tx, complete_tx}
use micro_manus_services.Agent.Ending.{fail_tx-IsSound, complete_tx-IsSound}
use micro_manus_services.Agent.Loop.{persist_step}
use micro_manus_services.Agent.Invariant.{persist_step-IsSound, record_usage-IsSound}

-- One step of the application, by what issues it.
pub data Step : Db → Db → Type 0 where
  sign_in :
      (d : Db) (resolve_email : Text → Option Text) (admin_email : Option Text)
      (verify : Text → Result Decoded) (token : Text) (fresh : ℕ)
      → Step d (login_with_id_token resolve_email admin_email verify token fresh d).1
  coupon : (d : Db) (c : Config) (user : ℕ) (raw : Text) → Step d (redeem c user raw d).1
  delivery :
      (d : Db) (c : Config) (construct : ConstructEvent) (body signature : Text)
      → Step d (handle_webhook c construct body signature d).1
  adjustment :
      (d : Db) (caller target : ℕ) (delta : ℤ) → Step d (request_grant caller target delta d).1
  thread_made : (d : Db) (id user : ℕ) → Step d (create_thread id user d).1
  thread_deleted : (d : Db) (id : ℕ) → Step d (without_thread id d)
  attached :
      (d : Db) (user thread : ℕ) (ids : List ℕ) → Step d (attach_to_thread user thread ids d).1
  message_sent :
      (d : Db) (run message now user thread : ℕ) (dto : SendMessage)
      → Unused run d
      → Step d (tx (send_tx run message now user thread dto) d).1
  turn_priced :
      (d : Db) (user thread run : ℕ) (model : Text) (u : NormUsage)
      → Step d (record_usage user thread run model u d).1
  step_persisted : (d : Db) (run : ℕ) (s : RunStep) → Step d (persist_step run s d).1
  run_failed : (d : Db) (r : RunRow) (message : Text) → Step d (tx (fail_tx r message) d).1
  run_done :
      (d : Db) (message : ℕ) (r : RunRow) (text : Text)
      → Step d (tx (complete_tx message r text) d).1
  summarized :
      (d : Db) (s : SummaryRow) (block : List MessageRow) → Step d (tx (archive_tx s block) d).1
  file_made : (d : Db) (a : ArtifactRow) → Step d (insert_artifact a d).1
  file_written : (d : Db) (id : ℕ) (path : Text) → Step d (set_path id path d).1
  uploaded : (d : Db) (u : UploadRow) → Step d (insert_upload u d).1
  key_added :
      (d : Db) (fresh user : ℕ) (ciphertext key : Text) (p : ProbeResult)
      → Step d (upsert_key fresh user ciphertext key p d).1
  key_deleted : (d : Db) (user id : ℕ) → Step d (delete_key user id d).1

-- Any number of steps.
pub data Steps : Db → Db → Type 0 where
  none_yet : (d : Db) → Steps d d
  and_then : (a b c : Db) → Steps a b → Step b c → Steps a c

create_thread-IsSound : (id user : ℕ) (d : Db) → IsSound d → IsSound (create_thread id user d).1
unfolding create_thread
create_thread-IsSound id user d v = elim (Bool-cases (any (is_thread id) d.threads)) [
  | inl old ↦ rw old v
  | inr new ↦ elim (Bool-cases (any (λ u. u.id == user) d.users)) [
    | inl known ↦
        rw new (
          rw known (record { balanced = v.balanced; charged = v.charged; exclusive = v.exclusive }))
    | inr absent ↦ rw new (rw absent v)
  ]
]

attach_to_thread-IsSound :
    (user thread : ℕ) (ids : List ℕ) (d : Db)
    → IsSound d
    → IsSound (attach_to_thread user thread ids d).1
unfolding attach_to_thread
attach_to_thread-IsSound user thread ids d v = record {
  balanced = v.balanced;
  charged = v.charged;
  exclusive = v.exclusive;
}

All-both :
    {A : Type 0} (P Q : A → Type 0) (xs : List A) → All P xs → All Q xs → All (λ x. P x × Q x) xs
All-both P Q [] p q = tt
All-both P Q (x ∷ xs) p q = ((p.0, q.0), All-both P Q xs p.1 q.1)

Step-IsSound : (a b : Db) → Step a b → IsSound a → IsSound b
Step-IsSound a b (sign_in _ resolve_email admin_email verify token fresh) v =
    login_with_id_token-IsSound resolve_email admin_email verify token fresh a v
Step-IsSound a b (coupon _ c user raw) v = redeem-IsSound c user raw a v
Step-IsSound a b (delivery _ c construct body signature) v =
    handle_webhook-IsSound c construct body signature a v
Step-IsSound a b (adjustment _ caller target delta) v =
    request_grant-IsSound caller target delta a v
Step-IsSound a b (thread_made _ id user) v = create_thread-IsSound id user a v
Step-IsSound a b (thread_deleted _ id) v = without_thread-IsSound id a v
Step-IsSound a b (attached _ user thread ids) v = attach_to_thread-IsSound user thread ids a v
Step-IsSound a b (message_sent _ run message now user thread dto unused) v =
    send_tx-IsSound run message now user thread dto a unused.0 unused.1 v
Step-IsSound a b (turn_priced _ user thread run model u) v =
    record_usage-IsSound user thread run model u a v
Step-IsSound a b (step_persisted _ run s) v = persist_step-IsSound run s a v
Step-IsSound a b (run_failed _ r message) v = fail_tx-IsSound r message a v
Step-IsSound a b (run_done _ message r text) v = complete_tx-IsSound message r text a v
Step-IsSound a b (summarized _ s block) v =
    framed-IsSound a (tx (archive_tx s block) a).1 (archive_tx-SameBooks s block a) v
Step-IsSound a b (file_made _ f) v =
    framed-IsSound a (insert_artifact f a).1 (insert_artifact-SameBooks f a) v
Step-IsSound a b (file_written _ id path) v =
    framed-IsSound a (set_path id path a).1 (set_path-SameBooks id path a) v
Step-IsSound a b (uploaded _ u) v =
    framed-IsSound a (insert_upload u a).1 (insert_upload-SameBooks u a) v
Step-IsSound a b (key_added _ fresh user ciphertext key p) v =
    framed-IsSound a (upsert_key fresh user ciphertext key p a).1
      (upsert_key-SameBooks fresh user ciphertext key p a) v
Step-IsSound a b (key_deleted _ user id) v =
    framed-IsSound a (delete_key user id a).1 (delete_key-SameBooks user id a) v

-- In whatever order the transactions and statements of requests and jobs take effect, each as a
-- whole, where the ledger does not name the key of a new run yet, the invariant holds ever after if
-- it holds once: every balance is its ledger's sum and not negative, every run has been charged
-- once and is refunded exactly if it failed, and no thread has two running runs.
pub Steps-IsSound : (a b : Db) → Steps a b → IsSound a → IsSound b
Steps-IsSound a b (none_yet _) v = v
Steps-IsSound a c (and_then _ b _ s t) v = Step-IsSound b c t (Steps-IsSound a b s v)

empty-IsSound : IsSound empty_db
empty-IsSound = record {
  balanced = record { keys = tt; sums = tt; nonneg = tt; owned = tt };
  charged = record { keys = tt; charged = tt };
  exclusive = tt;
}

-- In every database that such steps reach from the empty one, each user's credits are the
-- sum of the user's ledger and are not negative.
pub reachable_credits :
    (d : Db)
    → Steps empty_db d
    → All (λ u. (u.credits ≡ balance u.id d.credit_ledger) × (pos 0 ≤ℤ u.credits)) d.users
reachable_credits d s = All-both _ _ d.users v.balanced.sums v.balanced.nonneg
  where
    v : IsSound d
    v = Steps-IsSound empty_db d s empty-IsSound

-- In every database that such steps reach from the empty one, each run has exactly one
-- debit, one refund if it failed and none otherwise, and no thread has two running runs.
pub reachable_runs :
    (d : Db) → Steps empty_db d → All (Charged d.credit_ledger) d.runs × IsExclusive d.runs
reachable_runs d s = (v.charged.charged, v.exclusive)
  where
    v : IsSound d
    v = Steps-IsSound empty_db d s empty-IsSound
