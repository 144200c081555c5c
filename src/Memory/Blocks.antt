-- ===== src/Memory/Blocks.antt =====
-- The block of messages that a summary job takes, and an archive of it
-- (src/memory/summarize.processor.ts).
use micro_manus_services.Base.{
  ℕ, zero, suc, ◌+◌, ◌-◌, ◌≤◌, ◌<◌, ◌≡◌, refl, sym, ap, ◌∙◌, inl, inr, Bool, true, false, not, ◌||◌,
  List, [], ◌∷◌, ◌++◌, map, reverse, arith, leb, ==_iff, Bool-cases, length, take, keep, any, all,
  update_where, length-append, length-take-le,
}
use mathlib.Core.Path.{subst}
use mathlib.Core.List.{append_assoc, append-nil, reverse-cons}
use micro_manus_services.Db.{MessageRow}
use micro_manus_services.Ledger.{contains, NoDup}
use micro_manus_services.Memory.{
  is_open, estimate_tokens, block_tokens, keep_recent, block_from, block_of, among, archive,
}

pub keep-append :
    (p : MessageRow → Bool) (xs ys : List MessageRow) → keep p (xs ++ ys) ≡ keep p xs ++ keep p ys
keep-append p [] ys = refl
keep-append p (x ∷ xs) ys = ground (arith, keep-append p xs ys)

pub keep-reverse :
    (p : MessageRow → Bool) (xs : List MessageRow) → keep p (reverse xs) ≡ reverse (keep p xs)
keep-reverse p [] = refl
keep-reverse p (x ∷ xs) = elim (Bool-cases (p x)) [
  | inl e ↦ rw e (
      ap (keep p) (reverse-cons x xs)
      ∙ keep-append p (reverse xs) (x ∷ [])
      ∙ rw e (ap (λ r. r ++ x ∷ []) (keep-reverse p xs))
      ∙ sym (reverse-cons x (keep p xs)))
  | inr e ↦ rw e (
      ap (keep p) (reverse-cons x xs)
      ∙ keep-append p (reverse xs) (x ∷ [])
      ∙ rw e (append-nil (keep p (reverse xs)))
      ∙ keep-reverse p xs)
]

unfoldable pub spared : List MessageRow → MessageRow → Bool
spared block m = not (among block m)

-- An archived message is no longer open.
pub keep-archived :
    (thread : ℕ) (block ms : List MessageRow)
    → keep (is_open thread) (update_where (among block) archive ms)
      ≡ keep (spared block) (keep (is_open thread) ms)
unfolding spared
keep-archived thread block [] = refl
keep-archived thread block (m ∷ ms) = ground (arith, keep-archived thread block ms)

among_self : (c b : List MessageRow) (m : MessageRow) → among (c ++ m ∷ b) m ≡ true
among_self [] b m = ground arith
among_self (x ∷ c) b m = ground (arith, among_self c b m)

all-among : (c b : List MessageRow) → all (among (c ++ b)) b ≡ true
all-among c [] = refl
all-among c (m ∷ b) =
    rw (among_self c b m)
      (subst (λ x. all (among x) b ≡ true) (append_assoc c (m ∷ []) b) (all-among (c ++ m ∷ []) b))

keep-none : (block b : List MessageRow) → all (among block) b ≡ true → keep (spared block) b ≡ []
unfolding spared
keep-none block [] h = refl
keep-none block (m ∷ b) h = ground (arith, keep-none block b)

keep-whole : (block r : List MessageRow) → any (among block) r ≡ false → keep (spared block) r ≡ r
unfolding spared
keep-whole block [] h = refl
keep-whole block (m ∷ r) h = ground (arith, keep-whole block r)

abbrev pub ids : List MessageRow → List ℕ
ids ms = map (λ m. m.id) ms

any-cons :
    (x : MessageRow) (b r : List MessageRow)
    → any (among (x ∷ b)) r ≡ (contains x.id (ids r) || any (among b) r)
any-cons x b [] = refl
any-cons x b (m ∷ r) = ground (arith, any-cons x b r, ==_iff x.id m.id, ==_iff m.id x.id)

contains-append :
    (i : ℕ) (b r : List MessageRow)
    → contains i (ids (b ++ r)) ≡ (contains i (ids b) || contains i (ids r))
contains-append i [] r = refl
contains-append i (m ∷ b) r = ground (arith, contains-append i b r)

others-spared : (b r : List MessageRow) → NoDup (ids (b ++ r)) → any (among b) r ≡ false
others-spared [] r h = nobody r
  where
    nobody : (r : List MessageRow) → any (among []) r ≡ false
    nobody [] = refl
    nobody (m ∷ r) = nobody r
others-spared (x ∷ b) r h =
    rw (any-cons x b r) (ground (arith, others-spared b r h.1, contains-append x.id b r, h.0))

-- Of messages with their own keys, those behind the block stay open.
pub keep-rest : (b r : List MessageRow) → NoDup (ids (b ++ r)) → keep (spared b) (b ++ r) ≡ r
keep-rest b r h =
    keep-append (spared b) b r
    ∙ ap (λ x. x ++ keep (spared b) r) (keep-none b b (all-among [] b))
    ∙ keep-whole b r (others-spared b r h)

take-rest :
    (n : ℕ) (ms : List MessageRow)
    → (r : List MessageRow) × (take n ms ++ r ≡ ms) × (length r ≡ length ms - n)
take-rest n [] = ([], refl, omega arith)
take-rest zero (m ∷ ms) = (m ∷ ms, refl, omega arith)
take-rest (suc n) (m ∷ ms) =
    let (r, e, l) = take-rest n ms in (r, ap (λ x. m ∷ x) e, omega (arith, l))

-- The estimate for all but the last message.
abbrev pub tokens_before_last : List MessageRow → ℕ
tokens_before_last [] = 0
tokens_before_last (m ∷ []) = 0
tokens_before_last (m ∷ n ∷ ms) = estimate_tokens (length m.content) + tokens_before_last (n ∷ ms)

block_from-rest :
    (t : ℕ) (ms : List MessageRow) → (r : List MessageRow) × (block_from t ms ++ r ≡ ms)
unfolding block_from
block_from-rest t [] = ([], refl)
block_from-rest t (m ∷ ms) = elim (Bool-cases (leb block_tokens t)) [
  | inl spent ↦ (m ∷ ms, rw spent refl)
  | inr left ↦
      let (r, e) = block_from-rest (t + estimate_tokens (length m.content)) ms in
      (r, rw left (ap (λ x. m ∷ x) e))
]

-- The budget is not spent before the last message of the block.
pub block_from-budget :
    (t : ℕ) (ms : List MessageRow)
    → t < block_tokens
    → t + tokens_before_last (block_from t ms) < block_tokens
unfolding block_from
block_from-budget t [] h = omega arith
block_from-budget t (m ∷ []) h = ground arith
block_from-budget t (m ∷ n ∷ ms) h =
    ground (arith, block_from-budget (t + estimate_tokens (length m.content)) (n ∷ ms))

pub block_of-budget : (ms : List MessageRow) → tokens_before_last (block_of ms) < block_tokens
unfolding block_of
block_of-budget ms = omega (arith, block_from-budget 0 (take (length ms - keep_recent) ms))

-- A block is a beginning of the messages, and leaves the fifteen newest where it takes any.
pub block_of-rest :
    (ms : List MessageRow)
    → (rest : List MessageRow) × (block_of ms ++ rest ≡ ms)
      × (0 < length (block_of ms) → 15 ≤ length rest)
unfolding block_of
block_of-rest ms =
    let (r, e, l) = take-rest (length ms - keep_recent) ms in
    let (q, f) = block_from-rest 0 (take (length ms - keep_recent) ms) in
    (
      q ++ r,
      sym (append_assoc (block_of ms) q r) ∙ ap (λ x. x ++ r) f ∙ e,
      λ h. omega (
        arith,
        l,
        length-append q r,
        length-append (block_of ms) q,
        ap length f,
        length-take-le (length ms - keep_recent) ms,
      ),
    )
