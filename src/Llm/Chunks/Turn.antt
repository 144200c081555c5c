-- ===== src/Llm/Chunks/Turn.antt =====
-- The text and the tool calls that a stream of src/llm/openai-compat.provider.ts comes to.
use micro_manus_services.Base.{
  ℕ, ◌≡◌, refl, sym, ap, ◌∙◌, Option, none, some, List, [], ◌∷◌, ◌++◌, map, Text, keep,
}
use mathlib.Core.Path.{fun_ext}
use mathlib.Core.List.{append_assoc, append-nil}
use micro_manus_services.Llm.Types.{ToolCall}
use micro_manus_services.Llm.Chunks.{
  Fragment, Chunk, Streamed, get_call, on_fragments, on_chunk, on_chunks, extended,
  nothing_streamed, is_complete, call_of, turn_result, published,
}
use micro_manus_services.Llm.Chunks.Fragments.{
  get-fragments, onto-joined, joined, of_index, all_fragments, concat,
}
use micro_manus_services.Llm.Chunks.Table.{
  keys, add_keys_lem, keys-fragments, keys-fragments-Unique, keep_fresh, nil-Unique, at_key,
  read_back, fragments-append, first_seen,
}

chunk_calls :
    (cs : List Chunk) (s : Streamed)
    → (on_chunks s cs).calls ≡ on_fragments (all_fragments cs) s.calls
unfolding on_chunks on_chunk on_fragments
chunk_calls [] s = refl
chunk_calls (c ∷ cs) s =
    chunk_calls cs (on_chunk s c) ∙ sym (fragments-append c.tool_calls (all_fragments cs) s.calls)

concat-append : (xs ys : List Text) → concat (xs ++ ys) ≡ concat xs ++ concat ys
concat-append [] ys = refl
concat-append (x ∷ xs) ys = ap (λ r. x ++ r) (concat-append xs ys) ∙ sym (append_assoc x _ _)

concat-published : (o : Option Text) (old : Text) → old ++ concat (published o) ≡ extended o old
concat-published none old = append-nil old
concat-published (some []) old = append-nil old
concat-published (some (c ∷ cs)) old = ap (λ r. old ++ r) (append-nil (c ∷ cs))

chunk_text :
    (cs : List Chunk) (s : Streamed)
    → concat s.deltas ≡ s.text
    → concat (on_chunks s cs).deltas ≡ (on_chunks s cs).text
unfolding on_chunks on_chunk
chunk_text [] s h = h
chunk_text (c ∷ cs) s h =
    chunk_text cs (on_chunk s c)
      (concat-append s.deltas (published c.content) ∙ rw h (concat-published c.content s.text))

-- The tool calls of a turn, however their pieces came: one for each index of the deltas, in the
-- order of the first pieces, its id the last one sent and its name and arguments all the pieces
-- sent for that index, joined; those without an id or a name are dropped. The text is all that was
-- published, joined.
pub turn_result-on_chunks :
    (cs : List Chunk)
    → ((turn_result (on_chunks nothing_streamed cs)).tool_calls
        ≡ keep is_complete (
            map
              (λ k. joined (of_index k (all_fragments cs)))
              (first_seen (map (λ f. f.index) (all_fragments cs)))))
      × ((turn_result (on_chunks nothing_streamed cs)).text
          ≡ concat (on_chunks nothing_streamed cs).deltas)
unfolding turn_result get_call
turn_result-on_chunks cs = (ap (keep is_complete) calls, sym (chunk_text cs nothing_streamed refl))
  where
    fs : List Fragment
    fs = all_fragments cs

    table : List (ℕ × ToolCall)
    table = on_fragments fs []

    seen : keys table ≡ first_seen (map (λ f. f.index) fs)
    seen =
        keys-fragments fs []
        ∙ add_keys_lem (map (λ f. f.index) fs) []
        ∙ keep_fresh (first_seen (map (λ f. f.index) fs))

    held : (k : ℕ) → at_key table k ≡ joined (of_index k fs)
    held k = get-fragments k fs [] ∙ onto-joined (of_index k fs)

    calls :
        map call_of (on_chunks nothing_streamed cs).calls
        ≡ map (λ k. joined (of_index k fs)) (first_seen (map (λ f. f.index) fs))
    calls =
        ap (map call_of) (chunk_calls cs nothing_streamed)
        ∙ read_back table (keys-fragments-Unique fs [] nil-Unique)
        ∙ ap (map (at_key table)) seen
        ∙ ap (λ g. map g (first_seen (map (λ f. f.index) fs))) (fun_ext held)
