-- ===== src/Memory/Retrieval.antt =====
-- `MemoryService.retrievalBlock` of src/memory/memory.service.ts. The three nearest summaries with
-- their distances, in millionths, come from pgvector and the embedding service, which may fail.
use micro_manus_services.Base.{
  ℕ, suc, ◌+◌, Bool, ◌&&◌, Option, none, some, List, [], ◌∷◌, ◌++◌, reverse, ltb, ◌==◌,
  if◌then◌else◌, Text, codes, length, take, keep, any,
}
use micro_manus_services.Db.{Db, Result, ok, err, MessageRow, SummaryRow}
use micro_manus_services.Memory.{is_spoken, line_of}

abbrev pub max_original_chars : ℕ
max_original_chars = 16_000

abbrev pub distance_cutoff : ℕ
distance_cutoff = 550_000

abbrev pub Hit : Type 0
Hit = SummaryRow × ℕ

abbrev pub is_relevant : Hit → Bool
is_relevant (s, distance) = ltb distance distance_cutoff

abbrev pub digit_text : ℕ → Text
digit_text n = (48 + n) ∷ []

-- At most three hits, so that a number is one digit.
unfoldable pub numbered : ℕ → List Hit → List Text
numbered i [] = []
numbered i ((s, distance) ∷ hits) =
    (digit_text i ++ (codes ". " ++ s.content)) ∷ numbered (suc i) hits

-- The messages from one to another by their order, which is that of `created_at`.
abbrev pub up_to : ℕ → List MessageRow → List MessageRow
up_to last [] = []
up_to last (m ∷ ms) = if m.id == last then m ∷ [] else m ∷ up_to last ms

abbrev pub starting : ℕ → List MessageRow → List MessageRow
starting first [] = []
starting first (m ∷ ms) = if m.id == first then m ∷ ms else starting first ms

abbrev pub spoken_in : ℕ → MessageRow → Bool
spoken_in thread m = m.thread_id == thread && is_spoken m.role

-- The archived originals of a summary; where a bound is gone, the comparison with NULL selects
-- none.
unfoldable pub originals : ℕ → ℕ → ℕ → Db → List MessageRow
originals thread first last d = keep (spoken_in thread) (
    if any (λ m. m.id == last) d.messages
    then up_to last (starting first (reverse d.messages))
    else [])

-- The loop that adds lines while they fit.
unfoldable pub excerpt_from : Text → List MessageRow → Text
excerpt_from excerpt [] = excerpt
excerpt_from excerpt (m ∷ ms) =
    let line = line_of 1500 m ++ 10 ∷ [] in
    let rest = excerpt_from (excerpt ++ line) ms in
    if ltb max_original_chars (length excerpt + length line) then excerpt else rest

abbrev pub excerpt_part : Text → Text
excerpt_part [] = []
excerpt_part (c ∷ cs) = 10 ∷ (codes "Most relevant original excerpt:" ++ (10 ∷ c ∷ cs))

-- `.join('\n')`
unfoldable pub join_lines : List Text → Text
join_lines [] = []
join_lines (t ∷ []) = t
join_lines (t ∷ u ∷ ts) = t ++ (10 ∷ join_lines (u ∷ ts))

abbrev pub block_text : List Text → Text → Text
unfolding join_lines
block_text lines excerpt = join_lines (
    codes "<long_term_memory>"
    ∷ codes "Earlier in this conversation (summarized):"
    ∷ (lines ++ excerpt_part excerpt ∷ codes "</long_term_memory>" ∷ []))

abbrev pub from_relevant : ℕ → Db → List Hit → Option Text
unfolding numbered originals excerpt_from block_text
from_relevant thread d [] = none
from_relevant thread d ((s, distance) ∷ hits) = some (
    block_text (numbered 1 ((s, distance) ∷ hits))
      (excerpt_from [] (originals thread s.first_message_id s.last_message_id d)))

-- A failure is logged, and means that there is no block.
abbrev pub from_hits : ℕ → Db → Result (List Hit) → Option Text
unfolding from_relevant
from_hits thread d (err e) = none
from_hits thread d (ok hits) = from_relevant thread d (keep is_relevant hits)

abbrev pub has_summary : ℕ → Db → Bool
has_summary thread d = any (λ s. s.thread_id == thread) d.summaries

unfoldable pub retrieval_block :
    (enabled : Bool) → (nearest : ℕ → Text → Db → Result (List Hit)) → ℕ → Text → Db → Option Text
unfolding from_hits
retrieval_block enabled nearest thread question d =
    if enabled && has_summary thread d
    then from_hits thread d (nearest thread (take 4000 question) d)
    else none
