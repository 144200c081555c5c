-- ===== src/Llm/Anthropic/Pairs.antt =====
-- What the API of Anthropic wants of tool calls and their results, and that the conversion of
-- src/llm/anthropic.provider.ts keeps it.
use micro_manus_services.Base.{
  ◌≡◌, refl, ap, inl, inr, Bool, true, false, ◌&&◌, Option, none, some, List, [], ◌∷◌, ◌++◌, map,
  arith, if◌then◌else◌, Bool-cases, Text, any, all, text_eq,
}
use micro_manus_services.Db.{Result, ok, err}
use micro_manus_services.Llm.Types.{Json, ChatRole, ToolCall, ChatMsg}
use micro_manus_services.Llm.Anthropic.{
  ◌>>=◌, Block, BlockKind, new_block, MessageParam, MessageContent, blocks, plain, text_blocks,
  result_block, is_user, use_blocks, spoken, mark_last_block, mark_content, with_cache_breakpoint,
}
use micro_manus_services.Llm.Anthropic.Groups.{grouped, results_run, is_tool, group_by, in_front}

abbrev pub Shown : Type 0
Shown = ChatRole × List BlockKind

abbrev pub kinds : MessageContent → List BlockKind
kinds (plain t) = BlockKind.text t ∷ []
kinds (blocks bs) = map (λ b. b.kind) bs

-- A message without its cache breakpoints; a plain text is one block.
abbrev pub shown : MessageParam → Shown
shown m = (m.role, kinds m.content)

abbrev pub uses : List BlockKind → List Text
uses [] = []
uses (BlockKind.tool_use id name input ∷ ks) = id ∷ uses ks
uses (BlockKind.text t ∷ ks) = uses ks
uses (BlockKind.tool_result id content ∷ ks) = uses ks

abbrev pub answers : Text → BlockKind → Bool
answers id (BlockKind.tool_result (some i) content) = text_eq i id
answers id (BlockKind.tool_result none content) = false
answers id (BlockKind.text t) = false
answers id (BlockKind.tool_use i name input) = false

abbrev pub answered_first : Text → List Shown → Bool
answered_first id [] = false
answered_first id ((r, ks) ∷ ms) = is_user r && any (answers id) ks

-- Each `tool_use` block has its result in the next message, and that message is the user's.
abbrev pub IsPaired : List Shown → Type 0
IsPaired [] = Unit
IsPaired ((r, ks) ∷ ms) = (all (λ id. answered_first id ms) (uses ks) ≡ true) × IsPaired ms

mark_last-kinds : (bs : List Block) → map (λ b. b.kind) (mark_last_block bs) ≡ map (λ b. b.kind) bs
unfolding mark_last_block
mark_last-kinds [] = refl
mark_last-kinds (b ∷ []) = refl
mark_last-kinds (b ∷ c ∷ bs) = ap (λ r. b.kind ∷ r) (mark_last-kinds (c ∷ bs))

mark_content-kinds : (c : MessageContent) → kinds (mark_content c) ≡ kinds c
unfolding mark_last_block
mark_content-kinds (plain t) = refl
mark_content-kinds (blocks bs) = mark_last-kinds bs

-- The breakpoint changes nothing else.
pub breakpoint-shown :
    (ms : List MessageParam) → map shown (with_cache_breakpoint ms) ≡ map shown ms
unfolding with_cache_breakpoint
breakpoint-shown [] = refl
breakpoint-shown (m ∷ []) = ap (λ ks. (m.role, ks) ∷ []) (mark_content-kinds m.content)
breakpoint-shown (m ∷ n ∷ ms) = ap (λ r. shown m ∷ r) (breakpoint-shown (n ∷ ms))

-- The tool results right behind a message of the history.
abbrev pub replied : List ChatMsg → Text → Bool
replied ms id = any (answers id) (map (λ b. b.kind) (results_run ms))

abbrev pub calls_replied : ChatRole → Option (List ToolCall) → List ChatMsg → Bool
calls_replied ChatRole.assistant (some ts) ms = all (λ c. replied ms c.id) ts
calls_replied ChatRole.assistant none ms = true
calls_replied ChatRole.user calls ms = true
calls_replied ChatRole.tool calls ms = true

abbrev pub Replied : List ChatMsg → Type 0
Replied [] = Unit
Replied (m ∷ ms) = (calls_replied m.role m.tool_calls ms ≡ true) × Replied ms

text-uses :
    (t : Text) (us : List Block)
    → uses (kinds (blocks (text_blocks t ++ us))) ≡ uses (kinds (blocks us))
text-uses [] us = refl
text-uses (c ∷ cs) us = refl

run-uses : (ms : List ChatMsg) → uses (map (λ b. b.kind) (results_run ms)) ≡ []
unfolding results_run
run-uses [] = refl
run-uses (m ∷ ms) = elim (Bool-cases (is_tool m.role)) [
  | inl e ↦ rw e (run-uses ms)
  | inr e ↦ rw e refl
]

-- A conversion that does not fail has a property.
unfoldable pub Yields : (List MessageParam → Type 0) → Result (List MessageParam) → Type 0
Yields P (ok ms) = P ms
Yields P (err e) = Unit

unfoldable pub Paired : List MessageParam → Type 0
Paired ms = IsPaired (map shown ms)

FirstAnswers : Text → List MessageParam → Type 0
FirstAnswers id ms = answered_first id (map shown ms) ≡ true

front-FirstAnswers :
    (id : Text) (m : MessageParam) (rest : Result (List MessageParam))
    → (is_user m.role && any (answers id) (kinds m.content)) ≡ true
    → Yields (FirstAnswers id) (in_front m rest)
unfolding Yields FirstAnswers
front-FirstAnswers id m (ok ms) h = h
front-FirstAnswers id m (err e) h = tt

front-Paired :
    (m : MessageParam) (rest : Result (List MessageParam))
    → Yields
        (λ ms. all (λ id. answered_first id (map shown ms)) (uses (kinds m.content)) ≡ true)
        rest
    → Yields Paired rest
    → Yields Paired (in_front m rest)
unfolding Yields Paired
front-Paired m (ok ms) h p = (h, p)
front-Paired m (err e) h p = tt

none-Paired :
    (m : MessageParam) (rest : Result (List MessageParam))
    → uses (kinds m.content) ≡ []
    → Yields Paired rest
    → Yields Paired (in_front m rest)
unfolding Yields
none-Paired m (ok ms) e p = front-Paired m (ok ms) (rw e refl) p
none-Paired m (err x) e p = tt

all-answered :
    (ms : List ChatMsg) (ts : List ToolCall) (rest : Result (List MessageParam))
    → ((id : Text) → replied ms id ≡ true → Yields (FirstAnswers id) rest)
    → all (λ c. replied ms c.id) ts ≡ true
    → Yields (λ out. all (λ id. answered_first id (map shown out)) (map (λ c. c.id) ts) ≡ true) rest
unfolding Yields FirstAnswers
all-answered ms ts (err e) f h = tt
all-answered ms [] (ok out) f h = refl
all-answered ms (t ∷ ts) (ok out) f h = ground (arith, f t.id, all-answered ms ts (ok out) f)

module _ (parse : Text → Result Json) where
  -- The parsed calls keep their identifiers.
  SameIds : List ToolCall → Result (List Block) → Type 0
  SameIds ts (ok us) = uses (kinds (blocks us)) ≡ map (λ c. c.id) ts
  SameIds ts (err e) = Unit

  cons-SameIds :
      (t : ToolCall) (ts : List ToolCall) (input : Result Json) (rest : Result (List Block))
      → SameIds ts rest
      → SameIds
          (t ∷ ts)
          (input >>= λ i. rest >>= λ us. ok (new_block (BlockKind.tool_use t.id t.name i) ∷ us))
  unfolding SameIds
  cons-SameIds t ts (err e) rest h = tt
  cons-SameIds t ts (ok i) (err e) h = tt
  cons-SameIds t ts (ok i) (ok us) h = ap (λ r. t.id ∷ r) h

  use_blocks-SameIds : (ts : List ToolCall) → SameIds ts (use_blocks parse ts)
  unfolding use_blocks SameIds
  use_blocks-SameIds [] = refl
  use_blocks-SameIds (t ∷ ts) =
      cons-SameIds t ts (parse _) (use_blocks parse ts) (use_blocks-SameIds ts)

  answered-by :
      (id : Text) (r : ChatRole) (calls : Option (List ToolCall)) (m : ChatMsg) (run : List Block)
      (rest : Result (List MessageParam))
      → any (answers id) (map (λ b. b.kind) (if is_tool r then result_block m ∷ run else [])) ≡ true
      → Yields (FirstAnswers id) (group_by parse r calls m false run rest)
  answered-by id ChatRole.user calls m run rest h = absurd (ground arith)
  answered-by id ChatRole.assistant calls m run rest h = absurd (ground arith)
  answered-by id ChatRole.tool calls m run rest h = front-FirstAnswers id _ rest h

  answered-run :
      (ms : List ChatMsg) (id : Text)
      → replied ms id ≡ true
      → Yields (FirstAnswers id) (grouped parse false ms)
  unfolding grouped results_run
  answered-run [] id h = absurd (ground arith)
  answered-run (m ∷ ms) id h =
      answered-by id m.role m.tool_calls m (results_run ms) (grouped parse (is_tool m.role) ms) h

  spoken-Paired :
      (m : ChatMsg) (ms : List ChatMsg) (ts : List ToolCall) (us : Result (List Block))
      → SameIds ts us
      → all (λ c. replied ms c.id) ts ≡ true
      → Yields Paired (grouped parse false ms)
      → Yields Paired (us >>= λ u. in_front (spoken parse m u) (grouped parse false ms))
  unfolding SameIds Yields
  spoken-Paired m ms ts (err e) same h p = tt
  spoken-Paired m ms ts (ok us) same h p =
      front-Paired (spoken parse m us) (grouped parse false ms)
        (rw (text-uses m.content us)
          (rw same (all-answered ms ts (grouped parse false ms) (answered-run ms) h)))
        p

  step-Paired :
      (inside : Bool) (r : ChatRole) (calls : Option (List ToolCall)) (m : ChatMsg)
      (ms : List ChatMsg)
      → calls_replied r calls ms ≡ true
      → Yields Paired (grouped parse (is_tool r) ms)
      → Yields Paired
          (group_by parse r calls m inside (results_run ms) (grouped parse (is_tool r) ms))
  step-Paired true ChatRole.tool calls m ms h p = p
  step-Paired false ChatRole.tool calls m ms h p = none-Paired _ _ (run-uses ms) p
  step-Paired inside ChatRole.user calls m ms h p = none-Paired _ _ refl p
  step-Paired inside ChatRole.assistant none m ms h p = none-Paired _ _ refl p
  step-Paired inside ChatRole.assistant (some []) m ms h p = none-Paired _ _ refl p
  step-Paired inside ChatRole.assistant (some (t ∷ ts)) m ms h p =
      spoken-Paired m ms (t ∷ ts) (use_blocks parse (t ∷ ts)) (use_blocks-SameIds (t ∷ ts)) h p

  pub grouped-Paired :
      (inside : Bool) (ms : List ChatMsg) → Replied ms → Yields Paired (grouped parse inside ms)
  unfolding grouped Yields Paired
  grouped-Paired inside [] h = tt
  grouped-Paired inside (m ∷ ms) h =
      step-Paired inside m.role m.tool_calls m ms h.0 (grouped-Paired (is_tool m.role) ms h.1)
