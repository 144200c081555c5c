-- ===== src/RunEvents/Replay.antt =====
-- The replay of persisted steps (`stepsToEvents` of src/agent/run-events.ts) and the order in which
-- concurrent tools have persisted theirs.
use micro_manus_services.Base.{◌≡◌, refl, ap, ◌∙◌, ◌≢◌, List, [], ◌∷◌, ◌++◌, arith}
use micro_manus_services.RunEvents.{
  RunStep, index, insert_step, sort_steps, steps_to_events, events_from,
}

-- One list of steps from another, by swaps of neighbours that have different indices.
pub data Reordered : List RunStep → List RunStep → Type 0 where
  same_order : (ss : List RunStep) → Reordered ss ss
  swapped :
      (xs : List RunStep) (a b : RunStep) (ys : List RunStep)
      → index a ≢ index b
      → Reordered (xs ++ a ∷ b ∷ ys) (xs ++ b ∷ a ∷ ys)
  in_turn : (xs ys zs : List RunStep) → Reordered xs ys → Reordered ys zs → Reordered xs zs

insert_step-insert_step :
    (a b : RunStep) (ss : List RunStep)
    → index a ≢ index b
    → insert_step a (insert_step b ss) ≡ insert_step b (insert_step a ss)
unfolding insert_step
insert_step-insert_step a b [] ne = ground arith
insert_step-insert_step a b (s ∷ ss) ne = ground (arith, insert_step-insert_step a b ss ne)

sort_steps-swap :
    (xs : List RunStep) (a b : RunStep) (ys : List RunStep)
    → index a ≢ index b
    → sort_steps (xs ++ a ∷ b ∷ ys) ≡ sort_steps (xs ++ b ∷ a ∷ ys)
unfolding sort_steps
sort_steps-swap [] a b ys ne = insert_step-insert_step a b (sort_steps ys) ne
sort_steps-swap (x ∷ xs) a b ys ne = ap (insert_step x) (sort_steps-swap xs a b ys ne)

pub sort_steps-Reordered : (ss ts : List RunStep) → Reordered ss ts → sort_steps ss ≡ sort_steps ts
sort_steps-Reordered ss ts (same_order _) = refl
sort_steps-Reordered ss ts (swapped xs a b ys ne) = sort_steps-swap xs a b ys ne
sort_steps-Reordered xs zs (in_turn _ ys _ p q) =
    sort_steps-Reordered xs ys p ∙ sort_steps-Reordered ys zs q

-- However concurrent tools reorder the persisted steps, where steps that change places have
-- different indices, the replay sends the same events in the same order.
pub steps_to_events-Reordered :
    (ss ts : List RunStep) → Reordered ss ts → steps_to_events ss ≡ steps_to_events ts
unfolding steps_to_events
steps_to_events-Reordered ss ts r = ap events_from (sort_steps-Reordered ss ts r)
