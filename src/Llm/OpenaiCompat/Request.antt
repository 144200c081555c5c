-- ===== src/Llm/OpenaiCompat/Request.antt =====
-- Where src/llm/openai-compat.provider.ts sets the cache breakpoints of a request.
use micro_manus_services.Base.{
  ◌≡◌, refl, ap, ◌∙◌, ◌⊎◌, inl, inr, Bool, true, false, ◌||◌, List, [], ◌∷◌, ◌++◌, map, reverse,
  arith, Bool-cases, any,
}
use mathlib.Core.List.{append_assoc, map-append, reverse-append, reverse-reverse, reverse-cons}
use micro_manus_services.Llm.Types.{ChatMsg}
use micro_manus_services.Llm.Service.{TurnRequest}
use micro_manus_services.Llm.OpenaiCompat.{
  WireMsg, ephemeral, system_msg, role_of, to_wire, mark, is_user_side, mark_newest,
  mark_last_user_block, is_cacheable, request_messages,
}

abbrev pub side : ChatMsg → Bool
side m = is_user_side (role_of m.role)

abbrev wire_side : WireMsg → Bool
wire_side w = is_user_side w.role

any-append :
    (xs ys : List WireMsg) → any wire_side (xs ++ ys) ≡ (any wire_side xs || any wire_side ys)
any-append [] ys = refl
any-append (x ∷ xs) ys = ground (arith, any-append xs ys)

any-reverse : (ms : List WireMsg) → any wire_side (reverse ms) ≡ any wire_side ms
any-reverse [] = refl
any-reverse (m ∷ ms) =
    ap (any wire_side) (reverse-cons m ms)
    ∙ any-append (reverse ms) (m ∷ [])
    ∙ ground (arith, any-reverse ms)

mark_newest-none : (ms : List WireMsg) → any wire_side ms ≡ false → mark_newest ms ≡ ms
unfolding mark_newest
mark_newest-none [] h = refl
mark_newest-none (m ∷ ms) h = ground (arith, mark_newest-none ms)

mark_newest-append :
    (xs : List WireMsg) (m : WireMsg) (ys : List WireMsg)
    → any wire_side xs ≡ false
    → wire_side m ≡ true
    → mark_newest (xs ++ m ∷ ys) ≡ xs ++ mark m ∷ ys
unfolding mark_newest
mark_newest-append [] m ys h s = rw s refl
mark_newest-append (x ∷ xs) m ys h s = ground (arith, mark_newest-append xs m ys)

reverse-middle :
    (xs : List WireMsg) (m : WireMsg) (ys : List WireMsg)
    → reverse (xs ++ m ∷ ys) ≡ reverse ys ++ m ∷ reverse xs
reverse-middle xs m ys =
    reverse-append xs (m ∷ ys)
    ∙ ap (λ r. r ++ reverse xs) (reverse-cons m ys)
    ∙ append_assoc (reverse ys) (m ∷ []) (reverse xs)

mark_last-none :
    (w : WireMsg) (ms : List WireMsg)
    → any wire_side ms ≡ false
    → mark_last_user_block (w ∷ ms) ≡ w ∷ ms
unfolding mark_last_user_block
mark_last-none w ms h =
    ap (λ r. w ∷ reverse r) (mark_newest-none (reverse ms) (any-reverse ms ∙ h))
    ∙ ap (λ r. w ∷ r) (reverse-reverse ms)

mark_last-append :
    (w : WireMsg) (xs : List WireMsg) (m : WireMsg) (ys : List WireMsg)
    → any wire_side ys ≡ false
    → wire_side m ≡ true
    → mark_last_user_block (w ∷ xs ++ m ∷ ys) ≡ w ∷ xs ++ mark m ∷ ys
unfolding mark_last_user_block
mark_last-append w xs m ys h s =
    ap (λ r. w ∷ reverse (mark_newest r)) (reverse-middle xs m ys)
    ∙ ap (λ r. w ∷ reverse r)
        (mark_newest-append (reverse ys) m (reverse xs) (any-reverse ys ∙ h) s)
    ∙ ap (λ r. w ∷ r) (reverse-middle (reverse ys) (mark m) (reverse xs))
    ∙ (rw (reverse-reverse xs) (rw (reverse-reverse ys) refl))

-- The newest message of the user's side, if there is one.
newest_user :
    (ms : List ChatMsg)
    → (any side ms ≡ false)
      ⊎ ((before : List ChatMsg) × (m : ChatMsg) × (after : List ChatMsg) × (ms
            ≡ before ++ m ∷ after)
          × (side m ≡ true)
          × (any side after ≡ false))
newest_user [] = inl refl
newest_user (m ∷ ms) = elim (newest_user ms) [
  | inr (b, n, a, e, s, h) ↦ inr (m ∷ b, n, a, ap (λ r. m ∷ r) e, s, h)
  | inl h ↦ elim (Bool-cases (side m)) [
    | inl s ↦ inr ([], m, ms, refl, s, h)
    | inr s ↦ inl (rw s h)
  ]
]

wire_side-to_wire : (m : ChatMsg) → wire_side (to_wire m) ≡ side m
unfolding to_wire
wire_side-to_wire m = ground arith

any-to_wire : (ms : List ChatMsg) → any wire_side (map to_wire ms) ≡ any side ms
any-to_wire [] = refl
any-to_wire (m ∷ ms) = ground (arith, any-to_wire ms, wire_side-to_wire m)

-- A message of the user's side has plain content, so a mark keeps its text.
mark-to_wire :
    (m : ChatMsg)
    → side m ≡ true
    → mark (to_wire m) ≡ record (to_wire m) { content = ephemeral m.content }
unfolding to_wire
mark-to_wire m s = ground arith

-- A request for a model of Anthropic that goes through OpenRouter has a cache breakpoint on the
-- system prompt and one on the newest message of the user's side (a tool's result counts), if there
-- is one, with the text of that message kept. All other messages, and the messages of any other
-- request, go as they are.
pub request_messages-marks :
    (req : TurnRequest)
    → ((is_cacheable req ≡ false)
        × (request_messages req ≡ system_msg req.system false ∷ map to_wire req.messages))
      ⊎ ((is_cacheable req ≡ true)
          × (any side req.messages ≡ false)
          × (request_messages req ≡ system_msg req.system true ∷ map to_wire req.messages))
      ⊎ ((before : List ChatMsg) × (m : ChatMsg) × (after : List ChatMsg) × (is_cacheable req
            ≡ true)
          × (req.messages ≡ before ++ m ∷ after)
          × (side m ≡ true)
          × (any side after ≡ false)
          × (request_messages req
              ≡ system_msg req.system true
                ∷ (map to_wire before
                    ++ record (to_wire m) { content = ephemeral m.content } ∷ map to_wire after)))
unfolding request_messages
request_messages-marks req = elim (Bool-cases (is_cacheable req)) [
  | inr e ↦ inl (e, rw e refl)
  | inl e ↦ elim (newest_user req.messages) [
    | inl h ↦ inr (inl (e, h, rw e (mark_last-none _ _ (any-to_wire req.messages ∙ h))))
    | inr (b, m, a, q, s, h) ↦ inr (
        inr (
          b,
          m,
          a,
          e,
          q,
          s,
          h,
          rw e (
              rw q (
                ap (λ r. mark_last_user_block (system_msg req.system true ∷ r))
                  (map-append to_wire b (m ∷ a))
                ∙ mark_last-append _ (map to_wire b) (to_wire m) (map to_wire a) (any-to_wire a ∙ h)
                    (wire_side-to_wire m ∙ s)
                ∙ ap (λ w. system_msg req.system true ∷ map to_wire b ++ w ∷ map to_wire a)
                    (mark-to_wire m s))),
        ))
  ]
]
