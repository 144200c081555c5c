-- ===== src/Agent/Finalize.antt =====
-- How src/agent/agent.processor.ts ends a run: failed with a refund, or done with its answer.
use micro_manus_services.Base.{
  ℕ, zero, suc, ⊤, Bool, true, false, ◌&&◌, Option, none, some, List, [], ◌∷◌, leb, ◌==◌,
  if◌then◌else◌, Text, codes, take, last?, keep, update_where, text_eq,
}
use micro_manus_services.Base.Int.{pos}
use micro_manus_services.Db.{
  Db, Query, ok, err, pg, SqlState, Reason, Ref, RunRow, LedgerRow, ThreadRow, MessageRow, pure,
  ◌>>=◌, ◌>>◌,
}
use micro_manus_services.Db.Statements.{insert_message}
use micro_manus_services.Ledger.Charges.{is_live, set_done, set_failed}
use micro_manus_services.Ledger.Sound.{grant}
use micro_manus_services.Llm.Types.{ChatRole}

abbrev pub refund_row : RunRow → LedgerRow
refund_row r = record {
  user_id = r.user_id;
  delta = pos 1;
  reason = Reason.refund;
  ref_id = Ref.ref_run r.id;
}

-- UPDATE runs … WHERE id = $1 AND status = 'running' RETURNING id
unfoldable pub end_run : ℕ → (RunRow → RunRow) → Query (List RunRow)
end_run id f d =
    (ok (keep (is_live id) d.runs), record d { runs = update_where (is_live id) f d.runs })

abbrev pub refund_if : List RunRow → RunRow → Query ⊤
refund_if [] r = pure tt
refund_if (_ ∷ _) r = grant (refund_row r) >> pure tt

-- The transaction of `finalizeFailed`.
unfoldable pub fail_tx : RunRow → Text → Query ⊤
unfolding end_run
fail_tx r message = do failed ← end_run r.id (set_failed (take 500 message)); refund_if failed r

-- `LEFT(content, n)` counts characters: the second half of a surrogate pair counts for nothing.
abbrev is_low_surrogate : ℕ → Bool
is_low_surrogate c = leb 0xdc00 c && leb c 0xdfff

pub left : ℕ → Text → Text
left n [] = []
left zero (c ∷ cs) = if is_low_surrogate c then c ∷ left zero cs else []
left (suc n) (c ∷ cs) = if is_low_surrogate c then c ∷ left (suc n) cs else c ∷ left n cs

abbrev pub is_question : ℕ → MessageRow → Bool
is_question thread m = m.thread_id == thread && elim m.role [ ChatRole.user ↦ true | _ ↦ false ]

-- The first question of a thread; the newest message is the first of the table.
abbrev pub first_question : ℕ → Db → Option MessageRow
first_question thread d = last? (keep (is_question thread) d.messages)

abbrev pub default_title : Text
default_title = codes "New chat"

abbrev retitled : Option MessageRow → Text → ThreadRow → Option ThreadRow
retitled none model t = none
retitled (some m) model t = some (record t { model_id = some model; title = left 80 m.content })

-- The `CASE` of the update: a title that is still the default becomes the first question.
abbrev titled : Bool → Option MessageRow → Text → ThreadRow → Option ThreadRow
titled true question model t = retitled question model t
titled false question model t = some (record t { model_id = some model })

abbrev pub touch_rows : ℕ → Option MessageRow → Text → List ThreadRow → Option (List ThreadRow)
touch_rows id question model [] = some []
touch_rows id question model (t ∷ ts) = elim (touch_rows id question model ts) [
  | none ↦ none
  | some ts' ↦
      if t.id == id
      then elim (titled (text_eq t.title default_title) question model t) [
        | none ↦ none
        | some t' ↦ some (t' ∷ ts')
      ]
      else some (t ∷ ts')
]

-- UPDATE threads …: a default title and no question would set the title to NULL.
unfoldable pub touch_thread : ℕ → Text → Query ⊤
unfolding left
touch_thread id model d = elim (touch_rows id (first_question id d) model d.threads) [
  | none ↦ (err (pg SqlState.not_null_violation), d)
  | some ts ↦ (ok tt, record d { threads = ts })
]

abbrev pub answer : ℕ → ℕ → Text → MessageRow
answer id thread text = record {
  id = id;
  thread_id = thread;
  role = ChatRole.assistant;
  content = text;
  archived = false;
}

-- The transaction that ends a run with its answer.
unfoldable pub complete_tx : ℕ → RunRow → Text → Query ⊤
unfolding touch_thread end_run
complete_tx message r text = do
  insert_message (answer message r.thread_id text)
  touch_thread r.thread_id r.model_id
  end_run r.id set_done
  pure tt
