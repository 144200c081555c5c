-- ===== src/Llm/Anthropic/Groups.antt =====
-- `toAnthropicMessages` of src/llm/anthropic.provider.ts against a description that looks ahead:
-- each run of tool results is one message.
use micro_manus_services.Base.{
  ◌≡◌, refl, sym, ap, ◌∙◌, Bool, true, false, Option, none, some, List, [], ◌∷◌, ◌++◌, reverse,
  arith, if◌then◌else◌, Text,
}
use mathlib.Core.List.{append_assoc, append-nil, reverse-cons}
use micro_manus_services.Db.{Result, ok, err}
use micro_manus_services.Llm.Types.{Json, ChatRole, ToolCall, ChatMsg}
use micro_manus_services.Llm.Anthropic.{
  ◌>>=◌, Block, MessageParam, blocks, plain_message, result_block, results_message, is_result,
  takes_results, push_result, use_blocks, spoken, push_by, push_messages, to_anthropic_messages,
}

abbrev pub is_tool : ChatRole → Bool
is_tool ChatRole.tool = true
is_tool ChatRole.user = false
is_tool ChatRole.assistant = false

-- The results that follow, up to the next message of another role.
unfoldable pub results_run : List ChatMsg → List Block
results_run [] = []
results_run (m ∷ ms) = if is_tool m.role then result_block m ∷ results_run ms else []

abbrev pub results : List Block → MessageParam
results bs = record { role = ChatRole.user; content = blocks bs }

abbrev pub in_front : MessageParam → Result (List MessageParam) → Result (List MessageParam)
in_front m rest = rest >>= λ ms. ok (m ∷ ms)

module _ (parse : Text → Result Json) where
  abbrev pub group_by :
      ChatRole
      → Option (List ToolCall)
      → ChatMsg
      → Bool
      → List Block
      → Result (List MessageParam)
      → Result (List MessageParam)
  group_by ChatRole.tool calls m true run rest = rest
  group_by ChatRole.tool calls m false run rest = in_front (results (result_block m ∷ run)) rest
  group_by ChatRole.assistant (some (t ∷ ts)) m inside run rest =
      use_blocks parse (t ∷ ts) >>= λ uses. in_front (spoken parse m uses) rest
  group_by ChatRole.assistant (some []) m inside run rest = in_front (plain_message m) rest
  group_by ChatRole.assistant none m inside run rest = in_front (plain_message m) rest
  group_by ChatRole.user calls m inside run rest = in_front (plain_message m) rest

  -- `inside` a run, the results have been taken already.
  unfoldable pub grouped : Bool → List ChatMsg → Result (List MessageParam)
  grouped inside [] = ok []
  grouped inside (m ∷ ms) =
      group_by m.role m.tool_calls m inside (results_run ms) (grouped (is_tool m.role) ms)

  behind : List MessageParam → Result (List MessageParam) → Result (List MessageParam)
  behind out rest = rest >>= λ ms. ok (reverse out ++ ms)

  behind-cons :
      (m : MessageParam) (out : List MessageParam) (rest : Result (List MessageParam))
      → behind (m ∷ out) rest ≡ behind out (in_front m rest)
  unfolding behind
  behind-cons m out (err e) = refl
  behind-cons m out (ok ms) =
      ap ok (ap (λ r. r ++ ms) (reverse-cons m out) ∙ append_assoc (reverse out) (m ∷ []) ms)

  abbrev open_head : List MessageParam → Bool
  open_head [] = false
  open_head (m ∷ out) = takes_results m

  push_result-closed :
      (b : Block) (out : List MessageParam)
      → open_head out ≡ false
      → push_result b out ≡ results_message b ∷ out
  unfolding push_result
  push_result-closed b [] h = refl
  push_result-closed b (m ∷ out) h = rw h refl

  plain-closed : (m : ChatMsg) (out : List MessageParam) → open_head (plain_message m ∷ out) ≡ false
  plain-closed m out = ground arith

  -- The two claims of the induction, for the messages that are left.
  Closed : List ChatMsg → Type 0
  Closed ms =
      (out : List MessageParam)
      → open_head out ≡ false
      → push_messages parse ms out ≡ behind out (grouped false ms)

  Open : List ChatMsg → Type 0
  Open ms =
      (b : Block) (bs : List Block) (out : List MessageParam)
      → is_result b.kind ≡ true
      → push_messages parse ms (results (b ∷ bs) ∷ out)
        ≡ behind (results (b ∷ (bs ++ results_run ms)) ∷ out) (grouped true ms)

  spoken_lem :
      (m : ChatMsg) (ms : List ChatMsg) (out : List MessageParam) (uses : Result (List Block))
      → Closed ms
      → ((uses >>= λ us. ok (spoken parse m us ∷ out)) >>= λ o. push_messages parse ms o)
        ≡ behind out (uses >>= λ us. in_front (spoken parse m us) (grouped false ms))
  unfolding Closed behind
  spoken_lem m ms out (err e) h = refl
  spoken_lem m ms out (ok us) h =
      h (spoken parse m us ∷ out) refl ∙ behind-cons (spoken parse m us) out (grouped false ms)

  other_lem :
      (role : ChatRole) (calls : Option (List ToolCall)) (m : ChatMsg) (inside : Bool)
      (run : List Block) (ms : List ChatMsg) (out : List MessageParam)
      → is_tool role ≡ false
      → Closed ms
      → (push_by parse role calls m out >>= λ o. push_messages parse ms o)
        ≡ behind out (group_by role calls m inside run (grouped (is_tool role) ms))
  unfolding Closed push_by
  other_lem ChatRole.tool calls m inside run ms out n h = cc
  other_lem ChatRole.user calls m inside run ms out n h =
      h _ (plain-closed m out) ∙ behind-cons (plain_message m) out (grouped false ms)
  other_lem ChatRole.assistant (some (t ∷ ts)) m inside run ms out n h =
      spoken_lem m ms out (use_blocks parse (t ∷ ts)) h
  other_lem ChatRole.assistant (some []) m inside run ms out n h =
      h _ (plain-closed m out) ∙ behind-cons (plain_message m) out (grouped false ms)
  other_lem ChatRole.assistant none m inside run ms out n h =
      h _ (plain-closed m out) ∙ behind-cons (plain_message m) out (grouped false ms)

  -- A step from either state, by the role of the next message.
  step-Closed :
      (role : ChatRole) (calls : Option (List ToolCall)) (m : ChatMsg) (ms : List ChatMsg)
      → Closed ms
      → Open ms
      → (out : List MessageParam) → open_head out ≡ false
      → (push_by parse role calls m out >>= λ o. push_messages parse ms o)
        ≡ behind out (group_by role calls m false (results_run ms) (grouped (is_tool role) ms))
  unfolding Open push_by
  step-Closed ChatRole.tool calls m ms closed opened out h =
      rw (push_result-closed (result_block m) out h) (opened (result_block m) [] out refl)
      ∙ behind-cons _ out (grouped true ms)
  step-Closed ChatRole.user calls m ms closed opened out h =
      other_lem ChatRole.user calls m false (results_run ms) ms out refl closed
  step-Closed ChatRole.assistant calls m ms closed opened out h =
      other_lem ChatRole.assistant calls m false (results_run ms) ms out refl closed

  step-Open :
      (role : ChatRole) (calls : Option (List ToolCall)) (m : ChatMsg) (ms : List ChatMsg)
      → Closed ms
      → Open ms
      → (b : Block) (bs : List Block) (out : List MessageParam) → is_result b.kind ≡ true
      → (push_by parse role calls m (results (b ∷ bs) ∷ out) >>= λ o. push_messages parse ms o)
        ≡ behind
            (results (b ∷ (bs ++ (if is_tool role then result_block m ∷ results_run ms else [])))
              ∷ out)
            (group_by role calls m true (results_run ms) (grouped (is_tool role) ms))
  unfolding Open push_by
  step-Open ChatRole.tool calls m ms closed opened b bs out h = rw h (
      opened b (bs ++ result_block m ∷ []) out h
      ∙ ap (λ r. behind (results (b ∷ r) ∷ out) (grouped true ms))
          (append_assoc bs (result_block m ∷ []) (results_run ms)))
  step-Open ChatRole.user calls m ms closed opened b bs out h = rw (append-nil bs) (
      other_lem ChatRole.user calls m true (results_run ms) ms (results (b ∷ bs) ∷ out) refl closed)
  step-Open ChatRole.assistant calls m ms closed opened b bs out h = rw (append-nil bs) (
      other_lem ChatRole.assistant calls m true (results_run ms) ms (results (b ∷ bs) ∷ out) refl
        closed)

  groups : (ms : List ChatMsg) → Closed ms × Open ms
  unfolding Closed Open grouped push_messages behind results_run
  groups [] = (
    λ out h. ap ok (sym (append-nil (reverse out))),
    λ b bs out h. rw (append-nil bs) (ap ok (sym (append-nil (reverse (results (b ∷ bs) ∷ out))))),
  )
  groups (m ∷ ms) = (
    λ out h. step-Closed m.role m.tool_calls m ms (groups ms).0 (groups ms).1 out h,
    λ b bs out h. step-Open m.role m.tool_calls m ms (groups ms).0 (groups ms).1 b bs out h,
  )

  nothing_before : (r : Result (List MessageParam)) → behind [] r ≡ r
  unfolding behind
  nothing_before (ok ms) = refl
  nothing_before (err e) = refl

  -- The conversion makes one message of each run of tool results, as if it had looked ahead, one of
  -- every other message, and fails exactly where the arguments of a call do not parse.
  pub to_anthropic_messages-grouped :
      (ms : List ChatMsg) → to_anthropic_messages parse ms ≡ grouped false ms
  unfolding to_anthropic_messages Closed
  to_anthropic_messages-grouped ms = (groups ms).0 [] refl ∙ nothing_before (grouped false ms)
