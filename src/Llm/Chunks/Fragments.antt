-- ===== src/Llm/Chunks/Fragments.antt =====
-- The pieces of one tool call in a stream of src/llm/openai-compat.provider.ts, whatever comes
-- between.
use micro_manus_services.Base.{
  ℕ, ◌≡◌, refl, sym, ap, ◌∙◌, inl, inr, Option, none, some, List, [], ◌∷◌, ◌++◌, map, arith, ◌==◌,
  if◌then◌else◌, ==_iff, Bool-cases, Text, last?, keep,
}
use mathlib.Core.List.{append_assoc, append-nil}
use micro_manus_services.Llm.Types.{ToolCall}
use micro_manus_services.Llm.Chunks.{
  Fragment, Chunk, get_call, set_call, on_fragments, call_or_new, with_fragment, replaced, extended,
  is_text, no_call,
}

-- All that the deltas hold, in the order of arrival.
abbrev pub all_fragments : List Chunk → List Fragment
all_fragments [] = []
all_fragments (c ∷ cs) = c.tool_calls ++ all_fragments cs

abbrev pub of_index : ℕ → List Fragment → List Fragment
of_index k fs = keep (λ f. f.index == k) fs

abbrev pub or_empty : Option Text → Text
or_empty none = []
or_empty (some t) = t

abbrev pub concat : List Text → Text
concat [] = []
concat (t ∷ ts) = t ++ concat ts

abbrev pub last_of : List Text → Text
last_of ts = or_empty (last? (keep is_text ts))

-- The call that the fragments of one index make up: its last id, its name and its arguments in
-- pieces.
abbrev pub joined : List Fragment → ToolCall
joined fs = record {
  id = last_of (map (λ f. or_empty f.id) fs);
  name = concat (map (λ f. or_empty f.name) fs);
  args = concat (map (λ f. or_empty f.arguments) fs);
}

-- The fragments of one index, added to what there is.
abbrev pub onto : ToolCall → List Fragment → ToolCall
onto c [] = c
onto c (f ∷ fs) = onto (with_fragment f c) fs

pub get-set :
    (k j : ℕ) (c : ToolCall) (cs : List (ℕ × ToolCall))
    → get_call k (set_call j c cs) ≡ (if j == k then some c else get_call k cs)
unfolding get_call set_call
get-set k j c [] = refl
get-set k j c ((i, d) ∷ cs) = ground (arith, get-set k j c cs)

get-fragment :
    (k : ℕ) (f : Fragment) (cs : List (ℕ × ToolCall))
    → call_or_new
        (get_call k (set_call f.index (with_fragment f (call_or_new (get_call f.index cs))) cs))
      ≡ onto (call_or_new (get_call k cs)) (of_index k (f ∷ []))
get-fragment k f cs = ground (
  arith,
  get-set k f.index (with_fragment f (call_or_new (get_call f.index cs))) cs,
  ==_iff f.index k,
)

onto-cons :
    (k : ℕ) (f : Fragment) (c : ToolCall) (fs : List Fragment)
    → onto (onto c (of_index k (f ∷ []))) (of_index k fs) ≡ onto c (of_index k (f ∷ fs))
onto-cons k f c fs = elim (Bool-cases (f.index == k)) [ inl e ↦ rw e refl | inr e ↦ rw e refl ]

pub get-fragments :
    (k : ℕ) (fs : List Fragment) (cs : List (ℕ × ToolCall))
    → call_or_new (get_call k (on_fragments fs cs))
      ≡ onto (call_or_new (get_call k cs)) (of_index k fs)
unfolding on_fragments
get-fragments k [] cs = refl
get-fragments k (f ∷ fs) cs =
    get-fragments k fs _
    ∙ ap (λ c. onto c (of_index k fs)) (get-fragment k f cs)
    ∙ onto-cons k f (call_or_new (get_call k cs)) fs

or_old : Text → Option Text → Text
or_old old none = old
or_old old (some t) = t

last?-cons : (old x : Text) (ts : List Text) → or_old old (last? (x ∷ ts)) ≡ or_old x (last? ts)
unfolding or_old
last?-cons old x [] = refl
last?-cons old x (t ∷ ts) = last?-cons old t ts ∙ sym (last?-cons x t ts)

onto_id :
    (c : ToolCall) (fs : List Fragment)
    → (onto c fs).id ≡ or_old c.id (last? (keep is_text (map (λ f. or_empty f.id) fs)))
unfolding or_old
onto_id c [] = refl
onto_id c (f ∷ fs) = onto_id (with_fragment f c) fs ∙ next f.id
  where
    ids : List Text
    ids = keep is_text (map (λ f. or_empty f.id) fs)

    next :
        (o : Option Text)
        → or_old (replaced o c.id) (last? ids)
          ≡ or_old c.id (last? (keep is_text (or_empty o ∷ map (λ f. or_empty f.id) fs)))
    next none = refl
    next (some []) = refl
    next (some (x ∷ xs)) = sym (last?-cons c.id (x ∷ xs) ids)

extended_lem :
    (o : Option Text) (old rest : Text) → extended o old ++ rest ≡ old ++ (or_empty o ++ rest)
extended_lem none old rest = refl
extended_lem (some []) old rest = refl
extended_lem (some (x ∷ xs)) old rest = append_assoc old (x ∷ xs) rest

onto_name :
    (c : ToolCall) (fs : List Fragment)
    → (onto c fs).name ≡ c.name ++ concat (map (λ f. or_empty f.name) fs)
onto_name c [] = sym (append-nil c.name)
onto_name c (f ∷ fs) = onto_name (with_fragment f c) fs ∙ extended_lem f.name c.name _

onto_args :
    (c : ToolCall) (fs : List Fragment)
    → (onto c fs).args ≡ c.args ++ concat (map (λ f. or_empty f.arguments) fs)
onto_args c [] = sym (append-nil c.args)
onto_args c (f ∷ fs) = onto_args (with_fragment f c) fs ∙ extended_lem f.arguments c.args _

or_old-nil : (o : Option Text) → or_old [] o ≡ or_empty o
unfolding or_old
or_old-nil none = refl
or_old-nil (some t) = refl

pub onto-joined : (fs : List Fragment) → onto no_call fs ≡ joined fs
onto-joined fs = ground (
  arith,
  onto_id no_call fs,
  onto_name no_call fs,
  onto_args no_call fs,
  or_old-nil (last? (keep is_text (map (λ f. or_empty f.id) fs))),
)
