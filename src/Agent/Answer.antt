-- ===== src/Agent/Answer.antt =====
-- What a run that finishes says (the loop of `process` in src/agent/agent.processor.ts).
use micro_manus_services.Base.{
  ℕ, zero, suc, ◌+◌, ◌-◌, ⊤, ◌≡◌, refl, ap, ◌∙◌, inl, inr, Bool, true, false, List, [], ◌∷◌, arith,
  ◌==◌, Bool-cases, Text, length,
}
use mathlib.Core.Path.{subst}
use micro_manus_services.Db.{Result, ok, err, RunRow}
use micro_manus_services.Llm.Types.{ToolCall, ToolDef, ChatMsg, TurnResult}
use micro_manus_services.Llm.Service.{ResolvedKey}
use micro_manus_services.Models.{ModelEntry}
use micro_manus_services.World.{World, Action, then_act, ◌>>=◌, pure, gets, await}
use micro_manus_services.Agent.Loop.{
  Services, Turns, Turned, Ended, stop, go_on, finished, cancelled_by_user, finish_tool,
  finish_tools, run_tools, close_turn, after_stream, delta_events, publish_all, take_turn, turns,
  unless_cancelled, after_turn, is_cancelled, request_msgs, request_tools, lift_result,
  max_iterations,
}

-- A value that an action returns has a property.
record Returns {A : Type 0} (P : A → Type 0) (m : Action A) : Type 0 where
  returns : (w : World) (a : A) → (m w).0 ≡ ok a → P a

module _ {A B : Type 0} (P : B → Type 0) where
  after-Returns :
      (Q : A → Type 0) (f : A → Action B) (x : Result A × World)
      → ((a : A) → x.0 ≡ ok a → Q a)
      → ((a : A) → Q a → Returns P (f a))
      → (b : B) → (then_act f x).0 ≡ ok b
      → P b
  after-Returns Q f (ok a, w) q h b e = (h a (q a refl)).returns w b e
  after-Returns Q f (err x, w) q h b e = cc

  bind-Returns :
      (Q : A → Type 0) {m : Action A} {f : A → Action B}
      → Returns Q m
      → ((a : A) → Q a → Returns P (f a))
      → Returns P (m >>= f)
  bind-Returns Q {m} {f} q h = record {
    returns = λ w b e. after-Returns Q f (m w) (λ a e'. q.returns w a e') h b e;
  }

  -- Where nothing is known of the first part.
  then-Returns :
      (m : Action A) (f : A → Action B) → ((a : A) → Returns P (f a)) → Returns P (m >>= f)
  then-Returns m f h =
      bind-Returns (λ a. ⊤) {m = m} {f = f} (record { returns = λ w a e. tt }) (λ a q. h a)

pure-Returns : {A : Type 0} (P : A → Type 0) (a : A) → P a → Returns P (pure a)
pure-Returns P a p = record { returns = λ w b e. subst P (returned w b e) p }
  where
    returned : (w : World) (b : _) → (pure a w).0 ≡ ok b → a ≡ b
    returned w b e = cc

module _ (sv : Services) (r : RunRow) (key : ResolvedKey) (m : ModelEntry) where
  -- The model's stream has ended with this text and asked for no tool.
  abbrev pub Said : Text → Type 0
  Said text =
      (msgs : List ChatMsg) × (tools : List ToolDef) × (deltas : List Text) × (res : TurnResult)
      × (sv.stream key m msgs tools ≡ (deltas, ok res))
      × (res.tool_calls ≡ [])
      × (res.text ≡ text)

  -- A model that is offered no tool asks for none.
  abbrev pub Obeys : Type 0
  Obeys =
      (msgs : List ChatMsg) (deltas : List Text) (res : TurnResult)
      → sv.stream key m msgs [] ≡ (deltas, ok res)
      → res.tool_calls ≡ []

  SameRound : Turns → Turns → Type 0
  SameRound t t' = t'.iteration ≡ t.iteration

  finish_tool-Returns :
      (c : ℕ × ToolCall) (t : Turns) → Returns (SameRound t) (finish_tool sv r key m c t)
  unfolding finish_tool SameRound
  finish_tool-Returns (i, tc) t = search (then-Returns, pure-Returns) depth 12

  finish_tools-Returns :
      (cs : List (ℕ × ToolCall)) (t : Turns) → Returns (SameRound t) (finish_tools sv r key m cs t)
  unfolding finish_tools SameRound
  finish_tools-Returns [] t = pure-Returns _ _ refl
  finish_tools-Returns (c ∷ cs) t =
      bind-Returns _ (SameRound t) (finish_tool-Returns c t)
        λ t' q. record { returns = λ w t'' e. (finish_tools-Returns cs t').returns w t'' e ∙ q }

  run_tools-Returns :
      (first : ℕ) (calls : List ToolCall) (t : Turns)
      → Returns (SameRound t) (run_tools sv r key m first calls t)
  unfolding run_tools
  run_tools-Returns first calls t = search (then-Returns, finish_tools-Returns) depth 5

  -- A turn ends the loop with what the model said, or was not the last one.
  After : Turns → Turned → Type 0
  After t (stop cancelled_by_user) = ⊥
  After t (stop (finished text cost)) = Said text
  After t (go_on t') =
      (t'.iteration ≡ suc t.iteration) × ((t.iteration == max_iterations - 1) ≡ false)

  is_last : Turns → Bool
  is_last t = t.iteration == max_iterations - 1

  close_turn-Returns :
      (start t : Turns) (res : TurnResult) (calls : List ToolCall)
      → t.iteration ≡ start.iteration
      → (calls ≡ [] → Said res.text)
      → (is_last start ≡ true → calls ≡ [])
      → Returns (After start) (close_turn sv r key m res calls t)
  unfolding After SameRound is_last
  close_turn-Returns start t res [] same said last = pure-Returns _ _ (said refl)
  close_turn-Returns start t res (c ∷ cs) same said last =
      bind-Returns _ (SameRound t) (run_tools-Returns _ (c ∷ cs) t) λ t' q. pure-Returns _ _ (
        ap suc (q ∙ same),
        elim (Bool-cases (is_last start)) [
          | inl final ↦ absurd (ground (arith, last final))
          | inr before ↦ before
        ],
      )

  after_stream-Returns :
      (t : Turns) (res : TurnResult)
      → (res.tool_calls ≡ [] → Said res.text)
      → (is_last t ≡ true → res.tool_calls ≡ [])
      → Returns (After t) (after_stream sv r key m t res)
  unfolding after_stream
  after_stream-Returns t res said last = search (then-Returns, close_turn-Returns) depth 14

  take_turn-Returns : Obeys → (t : Turns) → Returns (After t) (take_turn sv r key m t)
  unfolding take_turn is_last
  take_turn-Returns obeys t =
      then-Returns _ (publish_all r.id (delta_events sv r key m (length t.steps) turn.0)) _ λ _.
        bind-Returns _ (λ res. turn.1 ≡ ok res) {m = lift_result sv r key m turn.1}
          (record { returns = λ w a e. e })
          λ res q. after_stream-Returns t res (said res q) (last res q)
    where
      final : Bool
      final = t.iteration == max_iterations - 1

      turn : List Text × Result TurnResult
      turn = sv.stream key m (request_msgs sv r key m final t.msgs) (request_tools sv r key m final)

      said : (res : TurnResult) → turn.1 ≡ ok res → res.tool_calls ≡ [] → Said res.text
      said res q none_left = (_, _, turn.0, res, ap (λ a. (turn.0, a)) q, none_left, refl)

      last : (res : TurnResult) → turn.1 ≡ ok res → final ≡ true → res.tool_calls ≡ []
      last res q e = obeys (request_msgs sv r key m final t.msgs) turn.0 res (
          subst
            (λ b.
              sv.stream key m (request_msgs sv r key m final t.msgs) (request_tools sv r key m b)
              ≡ (turn.0, ok res))
            e (ap (λ a. (turn.0, a)) q))

  -- Cancelled, or with a text that the model said.
  SaidIfFinished : Ended → Type 0
  SaidIfFinished cancelled_by_user = ⊤
  SaidIfFinished (finished text cost) = Said text

  unless-Returns :
      (flag : Bool) (next : Action Ended)
      → Returns SaidIfFinished next
      → Returns SaidIfFinished (unless_cancelled sv r key m flag next)
  unfolding SaidIfFinished
  unless-Returns true next h = pure-Returns _ _ tt
  unless-Returns false next h = h

  after_turn-Returns :
      (k : ℕ) (t : Turns) (x : Turned)
      → t.iteration + suc k ≡ max_iterations
      → ((t' : Turns)
          → t'.iteration + k ≡ max_iterations
          → (is_last t ≡ false)
          → Returns SaidIfFinished (turns sv r key m k t'))
      → After t x
      → Returns SaidIfFinished (after_turn sv r key m (turns sv r key m k) x)
  unfolding SaidIfFinished After is_last
  after_turn-Returns k t (stop cancelled_by_user) left next a = absurd a
  after_turn-Returns k t (stop (finished text cost)) left next a = pure-Returns _ _ a
  after_turn-Returns k t (go_on t') left next a = next t' (ground (arith, a.0, left)) a.1

  turn-Returns :
      (k : ℕ) (t : Turns)
      → Obeys
      → t.iteration + suc k ≡ max_iterations
      → ((t' : Turns)
          → t'.iteration + k ≡ max_iterations
          → is_last t ≡ false
          → Returns SaidIfFinished (turns sv r key m k t'))
      → Returns SaidIfFinished (turns sv r key m (suc k) t)
  unfolding turns
  turn-Returns k t obeys left next = then-Returns _ (await (sv.others t.iteration)) _ λ _.
      then-Returns _ (gets (is_cancelled sv r key m)) _ λ flag. unless-Returns flag _ (
        bind-Returns _ (After t) (take_turn-Returns obeys t)
          λ x a. after_turn-Returns k t x left next a)

  turns-Returns :
      (k : ℕ) (t : Turns)
      → Obeys
      → t.iteration + suc k ≡ max_iterations
      → Returns SaidIfFinished (turns sv r key m (suc k) t)
  unfolding is_last
  turns-Returns zero t obeys left =
      turn-Returns zero t obeys left (λ t' left' before. absurd (ground (arith, left, before)))
  turns-Returns (suc k) t obeys left =
      turn-Returns (suc k) t obeys left (λ t' left' before. turns-Returns k t' obeys left')

  -- Where the model asks for no tool when it is offered none, a run that finishes (it was neither
  -- cancelled nor stopped by an error) finishes with the text of a stream that asked for no tool.
  -- The loop starts with at least one of its twelve turns left.
  pub turns_answer :
      (k : ℕ) (t : Turns) (w : World) (text : Text) (cost : ℕ)
      → Obeys
      → t.iteration + suc k ≡ max_iterations
      → (turns sv r key m (suc k) t w).0 ≡ ok (finished text cost)
      → Said text
  unfolding SaidIfFinished
  turns_answer k t w text cost obeys left e =
      (turns-Returns k t obeys left).returns w (finished text cost) e
