-- ===== src/Memory/Archive.antt =====
-- What a summary job of src/memory/summarize.processor.ts archives, and what it leaves of the
-- thread.
use micro_manus_services.Base.{
  ◌<◌, arith, ◌≤◌, ◌≡◌, refl, sym, ap, ◌∙◌, ◌≢◌, ◌⊎◌, inl, inr, Bool, true, false, Option, none,
  some, List, [], ◌∷◌, ◌++◌, reverse, if◌then◌else◌, Bool-cases, Text, length, keep, any,
  update_where,
}
use micro_manus_services.Llm.Types.{TurnResult}
use micro_manus_services.Llm.Service.{ResolvedKey, resolve_key}
use micro_manus_services.Models.{ModelEntry, get_model}
use micro_manus_services.Base.Chars.{trim}
use micro_manus_services.World.{pure, World, SummarizeJob, on_db}
use micro_manus_services.Memory.{
  block_tokens, after_key, enabled_run, with_entry, with_block, with_messages, summary_prompt,
  request, summarize, insert_summary, summary_row, archive_messages, archive_tx, keep_summary,
  Helpers, block_of, open_messages, is_open, among, archive,
}
use micro_manus_services.Memory.Blocks.{
  block_of-budget, block_of-rest, tokens_before_last, keep-append, keep-reverse, spared,
  keep-archived, ids, keep-rest,
}
use mathlib.Core.Path.{subst}
use mathlib.Core.List.{append_assoc, reverse-append}
use micro_manus_services.Db.{Result, ok, err, MessageRow, SummaryRow, tx}
use micro_manus_services.Ledger.{NoDup}
use micro_manus_services.Db.Statements.{is_thread}

module _ (hp : Helpers) (j : SummarizeJob) (w : World) where
  -- What the processor finds of the world after its first and its second wait.
  abbrev pub later1 : World
  later1 = hp.others 0 w

  abbrev pub later2 : World
  later2 = hp.others 1 later1

  abbrev pub block : List MessageRow
  block = block_of (open_messages j.thread_id w.db)

  abbrev pub archived : SummaryRow → World
  archived s = record later2 {
    db = record later2.db {
      summaries = s ∷ later2.db.summaries;
      messages = update_where (among block) archive later2.db.messages;
    };
  }

  -- The ends of a job: it has changed nothing itself, or it has kept a summary and archived its
  -- block.
  abbrev pub JobEnds : World → Type 0
  JobEnds x =
      (x ≡ w)
      ⊎ (x ≡ later1)
      ⊎ (x ≡ later2)
      ⊎ ((first : MessageRow) × (rest : List MessageRow) × (text : Text) × (vector : Text) × (block
            ≡ first ∷ rest)
          × (1 ≤ length rest)
          × (text ≢ [])
          × (x ≡ archived (summary_row j.thread_id text vector first rest)))

  tx-JobEnds :
      (first : MessageRow) (rest : List MessageRow) (text : Text) (vector : Text)
      → block ≡ first ∷ rest
      → 1 ≤ length rest
      → text ≢ []
      → JobEnds
          (on_db
            (tx (archive_tx (summary_row j.thread_id text vector first rest) (first ∷ rest)))
            later2).1
  unfolding archive_tx insert_summary archive_messages
  tx-JobEnds first rest text vector e l t =
      elim (Bool-cases (any (is_thread j.thread_id) later2.db.threads)) [
        | inl there ↦ inr (inr (inr (first, rest, text, vector, e, l, t, rw there (rw e refl))))
        | inr gone ↦ inr (inr (inl (rw gone refl)))
      ]

  keep_summary-JobEnds :
      (first : MessageRow) (rest : List MessageRow) (text : Text)
      → block ≡ first ∷ rest
      → 1 ≤ length rest
      → JobEnds (keep_summary hp j first rest text later1).1
  unfolding keep_summary
  keep_summary-JobEnds first rest [] e l = inr (inl refl)
  keep_summary-JobEnds first rest (c ∷ cs) e l = go (hp.embed (c ∷ cs)) refl
    where
      go :
          (v : Result Text)
          → hp.embed (c ∷ cs) ≡ v
          → JobEnds (keep_summary hp j first rest (c ∷ cs) later1).1
      go (err x) q = inr (inl (rw q refl))
      go (ok v) q = rw q (tx-JobEnds first rest (c ∷ cs) v e l (λ z. cc))

  with_entry-JobEnds :
      (first : MessageRow) (rest : List MessageRow) (m : Option ModelEntry)
      → block ≡ first ∷ rest
      → 1 ≤ length rest
      → JobEnds (with_entry hp j first rest m later1).1
  unfolding with_entry resolve_key
  with_entry-JobEnds first rest none e l = inr (inl refl)
  with_entry-JobEnds first rest (some m) e l =
      with_key (resolve_key hp.decrypt j.user_id m later1.db).0 refl
    where
      answered :
          (key : ResolvedKey) (r : Result TurnResult)
          → hp.stream_turn key m summary_prompt (request hp j (first ∷ rest)) [] ≡ r
          → JobEnds (after_key hp j first rest m key later1).1
      answered key (err x) q = inr (inl (rw q refl))
      answered key (ok res) q = rw q (keep_summary-JobEnds first rest (trim res.text) e l)

      with_key :
          (r : Result ResolvedKey)
          → (resolve_key hp.decrypt j.user_id m later1.db).0 ≡ r
          → JobEnds (with_entry hp j first rest (some m) later1).1
      with_key (err x) q = inr (inl (rw q refl))
      with_key (ok key) q =
          rw q (
            answered key (hp.stream_turn key m summary_prompt (request hp j (first ∷ rest)) [])
              refl)

  with_block-JobEnds : (b : List MessageRow) → block ≡ b → JobEnds (with_block hp j b later1).1
  unfolding with_block
  with_block-JobEnds [] e = inr (inl refl)
  with_block-JobEnds (m ∷ []) e = inr (inl refl)
  with_block-JobEnds (m ∷ n ∷ ms) e =
      with_entry-JobEnds m (n ∷ ms) (get_model j.model_id) e (omega arith)

  messages-JobEnds :
      (small : Bool) → JobEnds ((if small then pure tt else with_block hp j block) later1).1
  messages-JobEnds true = inr (inl refl)
  messages-JobEnds false = with_block-JobEnds block refl

  -- A job that returns or throws has changed nothing itself, or it has archived its block and
  -- kept one summary of it.
  pub summarize_ends : JobEnds (summarize hp j w).1
  unfolding summarize enabled_run with_messages
  summarize_ends = elim (Bool-cases hp.enabled) [
    | inl on ↦ rw on (messages-JobEnds _)
    | inr off ↦ rw off (inl refl)
  ]

  -- Other requests and workers have only added messages to the thread, and messages have their own
  -- keys.
  pub record OnlyAdds (new : List MessageRow) : Type 0 where
    pub added : later2.db.messages ≡ new ++ w.db.messages
    pub keys : NoDup (ids (open_messages j.thread_id later2.db))

  open_later :
      (new : List MessageRow)
      → OnlyAdds new
      → open_messages j.thread_id later2.db
        ≡ open_messages j.thread_id w.db ++ reverse (keep (is_open j.thread_id) new)
  unfolding open_messages
  open_later new o = rw o.added (
      ap reverse (keep-append (is_open j.thread_id) new w.db.messages)
      ∙ reverse-append (keep (is_open j.thread_id) new) (keep (is_open j.thread_id) w.db.messages))

  open_archived :
      (s : SummaryRow)
      → open_messages j.thread_id (archived s).db
        ≡ keep (spared block) (open_messages j.thread_id later2.db)
  unfolding open_messages
  open_archived s =
      ap reverse (keep-archived j.thread_id block later2.db.messages)
      ∙ sym (keep-reverse (spared block) (keep (is_open j.thread_id) later2.db.messages))

  -- What is left of the thread.
  open_rest :
      (new : List MessageRow) (s : SummaryRow) (rest : List MessageRow)
      → OnlyAdds new
      → block ++ rest ≡ open_messages j.thread_id w.db
      → open_messages j.thread_id (archived s).db ≡ rest ++ reverse (keep (is_open j.thread_id) new)
  open_rest new s rest o e =
      open_archived s
      ∙ ap (keep (spared block)) whole
      ∙ keep-rest block _ (subst (λ x. NoDup (ids x)) whole o.keys)
    where
      whole :
          open_messages j.thread_id later2.db
          ≡ block ++ (rest ++ reverse (keep (is_open j.thread_id) new))
      whole =
          open_later new o
          ∙ ap (λ x. x ++ reverse (keep (is_open j.thread_id) new)) (sym e)
          ∙ append_assoc block rest (reverse (keep (is_open j.thread_id) new))

  -- Where other requests and workers only add messages meanwhile, a job changes nothing itself, or
  -- it leaves the open messages of the thread without a block of their oldest: two messages at
  -- least, below thirty thousand estimated tokens before the last one, and never one of the fifteen
  -- newest that it has read. One summary, not empty, then stands for the block, with its first and
  -- last message.
  pub summarize_leaves :
      (new : List MessageRow)
      → OnlyAdds new
      → ((summarize hp j w).1 ≡ w)
        ⊎ ((summarize hp j w).1 ≡ later1)
        ⊎ ((summarize hp j w).1 ≡ later2)
        ⊎ ((first : MessageRow) × (more : List MessageRow) × (rest : List MessageRow)
            × (text : Text) × (vector : Text) × (open_messages j.thread_id w.db
                ≡ first ∷ (more ++ rest))
            × (1 ≤ length more)
            × (15 ≤ length rest)
            × (tokens_before_last (first ∷ more) < block_tokens)
            × (text ≢ [])
            × (open_messages j.thread_id (summarize hp j w).1.db
                ≡ rest ++ reverse (keep (is_open j.thread_id) new))
            × ((summarize hp j w).1.db.summaries
                ≡ summary_row j.thread_id text vector first more ∷ later2.db.summaries))
  summarize_leaves new o = elim summarize_ends [
    | inl e ↦ inl e
    | inr (inl e) ↦ inr (inl e)
    | inr (inr (inl e)) ↦ inr (inr (inl e))
    | inr (inr (inr (first, more, text, vector, b, l, t, e))) ↦
        let (rest, q, many) = block_of-rest (open_messages j.thread_id w.db) in
        inr (
          inr (
            inr (
              first,
              more,
              rest,
              text,
              vector,
              sym q ∙ ap (λ x. x ++ rest) b,
              l,
              many (rw b (omega arith)),
              subst (λ x. tokens_before_last x < block_tokens) b budget,
              t,
              ap (λ x. open_messages j.thread_id x.db) e ∙ open_rest new _ rest o q,
              ap (λ x. x.db.summaries) e,
            )))
  ]
    where
      budget : tokens_before_last block < block_tokens
      budget = block_of-budget (open_messages j.thread_id w.db)
