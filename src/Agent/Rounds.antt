-- ===== src/Agent/Rounds.antt =====
-- The steps that a resumed run keeps (`dropIncompleteTrailingRound` of
-- src/agent/agent.processor.ts), as rounds of tool calls and results.
use micro_manus_services.Base.{
  ◌≡◌, refl, sym, ap, ◌∙◌, inl, inr, Bool, true, false, Option, none, some, List, [], ◌∷◌, ◌++◌,
  Bool-cases,
}
use mathlib.Core.List.{append-nil}
use micro_manus_services.RunEvents.{RunStep, LlmStep, llm, tool}
use micro_manus_services.Agent.Resume.{split_last, extend_split, all_resolved, cut, drop_incomplete}

-- The tool steps in front of the next `llm` step.
abbrev pub round : List RunStep → List RunStep
round [] = []
round (llm l ∷ ss) = []
round (tool t ∷ ss) = tool t ∷ round ss

abbrev pub has_llm : List RunStep → Bool
has_llm [] = false
has_llm (llm l ∷ ss) = true
has_llm (tool t ∷ ss) = has_llm ss

-- Every call is answered before the model speaks again.
abbrev pub Answered : List RunStep → Type 0
Answered [] = Unit
Answered (llm l ∷ ss) = (all_resolved l.tool_calls (round ss) ≡ true) × Answered ss
Answered (tool t ∷ ss) = Answered ss

-- Every call but those of the last round is, which is what a worker that was stopped leaves.
abbrev pub AnsweredButLast : List RunStep → Type 0
AnsweredButLast [] = Unit
AnsweredButLast (llm l ∷ ss) =
    (has_llm ss ≡ true → all_resolved l.tool_calls (round ss) ≡ true) × AnsweredButLast ss
AnsweredButLast (tool t ∷ ss) = AnsweredButLast ss

abbrev Split : Type 0
Split = Option (List RunStep × LlmStep × List RunStep)

-- What the split of a list says of it.
Splits : List RunStep → Split → Type 0
Splits ss none = has_llm ss ≡ false
Splits ss (some (b, l, a)) = (ss ≡ b ++ llm l ∷ a) × (has_llm a ≡ false)

extend-Splits :
    (s : RunStep) (ss : List RunStep) (o : Split)
    → Splits ss o
    → Splits (s ∷ ss) (extend_split s ss o)
unfolding Splits
extend-Splits s ss (some (b, l, a)) (e, h) = (ap (λ r. s ∷ r) e, h)
extend-Splits (llm l) ss none h = (refl, h)
extend-Splits (tool t) ss none h = h

split_last-Splits : (ss : List RunStep) → Splits ss (split_last ss)
unfolding split_last Splits
split_last-Splits [] = refl
split_last-Splits (s ∷ ss) = extend-Splits s ss (split_last ss) (split_last-Splits ss)

round-append : (b a : List RunStep) (l : LlmStep) → round (b ++ llm l ∷ a) ≡ round b
round-append [] a l = refl
round-append (llm x ∷ b) a l = refl
round-append (tool t ∷ b) a l = ap (λ r. tool t ∷ r) (round-append b a l)

has_llm-append : (b a : List RunStep) (l : LlmStep) → has_llm (b ++ llm l ∷ a) ≡ true
has_llm-append [] a l = refl
has_llm-append (llm x ∷ b) a l = refl
has_llm-append (tool t ∷ b) a l = has_llm-append b a l

round-same : (a : List RunStep) → has_llm a ≡ false → round a ≡ a
round-same [] h = refl
round-same (llm l ∷ a) h = absurd cc
round-same (tool t ∷ a) h = ap (λ r. tool t ∷ r) (round-same a h)

tools-Answered : (ss : List RunStep) → has_llm ss ≡ false → Answered ss
tools-Answered [] h = tt
tools-Answered (llm l ∷ ss) h = absurd cc
tools-Answered (tool t ∷ ss) h = tools-Answered ss h

-- The rounds before the last one are answered within what comes before it.
before-Answered : (b a : List RunStep) (l : LlmStep) → AnsweredButLast (b ++ llm l ∷ a) → Answered b
before-Answered [] a l h = tt
before-Answered (llm x ∷ b) a l h = (
  ap (all_resolved x.tool_calls) (sym (round-append b a l)) ∙ h.0 (has_llm-append b a l),
  before-Answered b a l h.1,
)
before-Answered (tool t ∷ b) a l h = before-Answered b a l h

all-Answered :
    (b a : List RunStep) (l : LlmStep)
    → AnsweredButLast (b ++ llm l ∷ a)
    → has_llm a ≡ false
    → all_resolved l.tool_calls a ≡ true
    → Answered (b ++ llm l ∷ a)
all-Answered [] a l h last r =
    (ap (all_resolved l.tool_calls) (round-same a last) ∙ r, tools-Answered a last)
all-Answered (llm x ∷ b) a l h last r = (h.0 (has_llm-append b a l), all-Answered b a l h.1 last r)
all-Answered (tool t ∷ b) a l h last r = all-Answered b a l h last r

last-Answered :
    (b a : List RunStep) (l : LlmStep)
    → Answered (b ++ llm l ∷ a)
    → has_llm a ≡ false
    → all_resolved l.tool_calls a ≡ true
last-Answered [] a l h last = ap (all_resolved l.tool_calls) (sym (round-same a last)) ∙ h.0
last-Answered (llm x ∷ b) a l h last = last-Answered b a l h.1 last
last-Answered (tool t ∷ b) a l h last = last-Answered b a l h last

cut-Answered :
    (ss : List RunStep) (o : Split) → Splits ss o → AnsweredButLast ss → Answered (cut ss o)
unfolding Splits
cut-Answered ss none s h = tools-Answered ss s
cut-Answered ss (some (b, l, a)) (e, none_after) h =
    elim (Bool-cases (all_resolved l.tool_calls a)) [
      | inl whole ↦ rw whole (rw e (all-Answered b a l (rw e at h) none_after whole))
      | inr part ↦ rw part (before-Answered b a l (rw e at h))
    ]

-- Where every round of the persisted steps but the last one has the result of each of its tool
-- calls, the steps that a resumed run keeps have the result of every tool call.
pub drop_incomplete-Answered :
    (ss : List RunStep) → AnsweredButLast ss → Answered (drop_incomplete ss)
unfolding drop_incomplete
drop_incomplete-Answered ss h = cut-Answered ss (split_last ss) (split_last-Splits ss) h

cut-same : (ss : List RunStep) (o : Split) → Splits ss o → Answered ss → cut ss o ≡ ss
unfolding Splits
cut-same ss none s h = refl
cut-same ss (some (b, l, a)) (e, none_after) h = rw (last-Answered b a l (rw e at h) none_after)

-- A resumed run keeps all its steps where each tool call has its result.
pub drop_incomplete-same : (ss : List RunStep) → Answered ss → drop_incomplete ss ≡ ss
unfolding drop_incomplete
drop_incomplete-same ss h = cut-same ss (split_last ss) (split_last-Splits ss) h

cut-prefix :
    (ss : List RunStep) (o : Split) → Splits ss o → (rest : List RunStep) × (cut ss o ++ rest ≡ ss)
unfolding Splits
cut-prefix ss none s = ([], append-nil ss)
cut-prefix ss (some (b, l, a)) (e, none_after) = elim (Bool-cases (all_resolved l.tool_calls a)) [
  | inl whole ↦ ([], rw whole (append-nil ss))
  | inr part ↦ (llm l ∷ a, rw part (sym e))
]

-- The steps that a resumed run keeps are the beginning of the steps that it finds.
pub drop_incomplete-prefix :
    (ss : List RunStep) → (rest : List RunStep) × (drop_incomplete ss ++ rest ≡ ss)
unfolding drop_incomplete
drop_incomplete-prefix ss = cut-prefix ss (split_last ss) (split_last-Splits ss)
