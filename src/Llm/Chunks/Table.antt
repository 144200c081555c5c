-- ===== src/Llm/Chunks/Table.antt =====
-- The `Map` of tool calls that src/llm/openai-compat.provider.ts fills, as its keys and what it
-- holds.
use micro_manus_services.Base.{
  ℕ, ◌≡◌, refl, sym, ap, ◌∙◌, inl, inr, Bool, true, false, not, ◌&&◌, ◌||◌, List, [], ◌∷◌, ◌++◌,
  map, arith, ◌==◌, if◌then◌else◌, ==_iff, Bool-cases, keep, any,
}
use mathlib.Core.Path.{fun_ext}
use mathlib.Core.List.{append_assoc, append-nil}
use mathlib.Core.Bool.{◌&&◌}
use micro_manus_services.Llm.Types.{ToolCall}
use micro_manus_services.Llm.Chunks.{
  Fragment, get_call, set_call, on_fragments, call_or_new, with_fragment, call_of,
}

-- The numbers of a list without repetition, in the order of their first appearance.
pub first_seen : List ℕ → List ℕ
first_seen [] = []
first_seen (k ∷ ks) = k ∷ keep (λ j. not (j == k)) (first_seen ks)

-- The keys of the table.
abbrev pub keys : List (ℕ × ToolCall) → List ℕ
keys [] = []
keys ((k, c) ∷ cs) = k ∷ keys cs

abbrev pub among : ℕ → List ℕ → Bool
among k ks = any (λ j. j == k) ks

pub add_key : ℕ → List ℕ → List ℕ
add_key k ks = if among k ks then ks else ks ++ k ∷ []

pub keys-set :
    (k : ℕ) (c : ToolCall) (cs : List (ℕ × ToolCall)) → keys (set_call k c cs) ≡ add_key k (keys cs)
unfolding set_call add_key
keys-set k c [] = refl
keys-set k c ((j, d) ∷ cs) = ground (arith, keys-set k c cs)

pub Unique : List ℕ → Type 0
Unique [] = Unit
Unique (k ∷ ks) = (among k ks ≡ false) × Unique ks

among-append : (k j : ℕ) (ks : List ℕ) → among k (ks ++ j ∷ []) ≡ (among k ks || (j == k))
among-append k j [] = ground arith
among-append k j (i ∷ ks) = ground (arith, among-append k j ks)

snoc-Unique : (k : ℕ) (ks : List ℕ) → among k ks ≡ false → Unique ks → Unique (ks ++ k ∷ [])
unfolding Unique
snoc-Unique k [] h u = (refl, tt)
snoc-Unique k (j ∷ ks) h u = (
  ground (arith, among-append j k ks, ==_iff k j, ==_iff j k),
  snoc-Unique k ks (ground arith) u.1,
)

pub add_key-Unique : (k : ℕ) (ks : List ℕ) → Unique ks → Unique (add_key k ks)
unfolding add_key
add_key-Unique k ks u = elim (Bool-cases (among k ks)) [
  | inl e ↦ rw e u
  | inr e ↦ rw e (snoc-Unique k ks e u)
]

pub keys-fragments-Unique :
    (fs : List Fragment) (cs : List (ℕ × ToolCall))
    → Unique (keys cs)
    → Unique (keys (on_fragments fs cs))
unfolding on_fragments
keys-fragments-Unique [] cs u = u
keys-fragments-Unique (f ∷ fs) cs u = keys-fragments-Unique fs _ (
    rw (keys-set f.index (with_fragment f (call_or_new (get_call f.index cs))) cs)
      (add_key-Unique f.index (keys cs) u))

abbrev pub add_keys : List ℕ → List ℕ → List ℕ
add_keys [] seen = seen
add_keys (k ∷ ks) seen = add_keys ks (add_key k seen)

pub keys-fragments :
    (fs : List Fragment) (cs : List (ℕ × ToolCall))
    → keys (on_fragments fs cs) ≡ add_keys (map (λ f. f.index) fs) (keys cs)
unfolding on_fragments
keys-fragments [] cs = refl
keys-fragments (f ∷ fs) cs =
    keys-fragments fs _
    ∙ ap (add_keys (map (λ f. f.index) fs))
        (keys-set f.index (with_fragment f (call_or_new (get_call f.index cs))) cs)

keep-keep : (p q : ℕ → Bool) (ks : List ℕ) → keep p (keep q ks) ≡ keep (λ k. q k && p k) ks
keep-keep p q [] = refl
keep-keep p q (k ∷ ks) = elim (Bool-cases (q k)) [
  | inl e ↦ rw e (rw (keep-keep p q ks) refl)
  | inr e ↦ rw e (keep-keep p q ks)
]

keep_same : (p q : ℕ → Bool) → ((k : ℕ) → p k ≡ q k) → (ks : List ℕ) → keep p ks ≡ keep q ks
keep_same p q h ks = ap (λ r. keep r ks) (fun_ext h)

pub fresh : List ℕ → ℕ → Bool
fresh seen k = not (among k seen)

fresh_old :
    (k j : ℕ) (seen : List ℕ) → among k seen ≡ true → (not (j == k) && fresh seen j) ≡ fresh seen j
unfolding fresh
fresh_old k j seen h = elim (Bool-cases (j == k)) [
  | inl e ↦ rw ((==_iff j k).0 e) (rw h (ground arith))
  | inr e ↦ rw e refl
]

fresh_new : (k j : ℕ) (seen : List ℕ) → (not (j == k) && fresh seen j) ≡ fresh (seen ++ k ∷ []) j
unfolding fresh
fresh_new k j seen = ground (arith, among-append j k seen, ==_iff k j, ==_iff j k)

pub add_keys_lem : (ks seen : List ℕ) → add_keys ks seen ≡ seen ++ keep (fresh seen) (first_seen ks)
unfolding first_seen add_key fresh
add_keys_lem [] seen = sym (append-nil seen)
add_keys_lem (k ∷ ks) seen = elim (Bool-cases (among k seen)) [
  | inl e ↦ rw e (
      add_keys_lem ks seen
      ∙ ap (λ r. seen ++ r)
          (sym (both ∙ keep_same _ _ (λ j. fresh_old k j seen e) (first_seen ks))))
  | inr e ↦ rw e (
      add_keys_lem ks (seen ++ k ∷ [])
      ∙ append_assoc seen (k ∷ []) _
      ∙ ap (λ r. seen ++ k ∷ r)
          (sym (both ∙ keep_same _ _ (λ j. fresh_new k j seen) (first_seen ks))))
]
  where
    both :
        keep (fresh seen) (keep (λ j. not (j == k)) (first_seen ks))
        ≡ keep (λ j. not (j == k) && fresh seen j) (first_seen ks)
    both = keep-keep (fresh seen) (λ j. not (j == k)) (first_seen ks)

-- The call that a table holds for a key.
abbrev pub at_key : List (ℕ × ToolCall) → ℕ → ToolCall
at_key cs k = call_or_new (get_call k cs)

at_other_keys :
    (k : ℕ) (c : ToolCall) (cs : List (ℕ × ToolCall)) (ks : List ℕ)
    → among k ks ≡ false
    → map (at_key ((k, c) ∷ cs)) ks ≡ map (at_key cs) ks
unfolding get_call
at_other_keys k c cs [] h = refl
at_other_keys k c cs (j ∷ ks) h = ground (arith, at_other_keys k c cs ks, ==_iff k j, ==_iff j k)

at_first_key : (k : ℕ) (c : ToolCall) (cs : List (ℕ × ToolCall)) → at_key ((k, c) ∷ cs) k ≡ c
unfolding get_call
at_first_key k c cs = ground arith

pub keep_fresh : (ks : List ℕ) → keep (fresh []) ks ≡ ks
unfolding fresh
keep_fresh [] = refl
keep_fresh (k ∷ ks) = ap (λ r. k ∷ r) (keep_fresh ks)

pub nil-Unique : Unique []
unfolding Unique
nil-Unique = tt

-- A table without repeated keys is its keys with what it holds for each.
pub read_back :
    (cs : List (ℕ × ToolCall)) → Unique (keys cs) → map call_of cs ≡ map (at_key cs) (keys cs)
unfolding Unique
read_back [] u = refl
read_back ((k, c) ∷ cs) u =
    rw (at_first_key k c cs)
      (ap (λ r. c ∷ r) (read_back cs u.1 ∙ sym (at_other_keys k c cs (keys cs) u.0)))

pub fragments-append :
    (fs gs : List Fragment) (cs : List (ℕ × ToolCall))
    → on_fragments (fs ++ gs) cs ≡ on_fragments gs (on_fragments fs cs)
unfolding on_fragments
fragments-append [] gs cs = refl
fragments-append (f ∷ fs) gs cs = fragments-append fs gs _
