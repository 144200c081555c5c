-- ===== src/Uploads/Context.antt =====
-- `contextBlock` of src/uploads/uploads.service.ts: the texts of a thread's files for the model.
-- The linking of files to a thread is in Chat/Transaction.
use micro_manus_services.Base.{
  ℕ, ◌+◌, ◌≤◌, ◌≡◌, inl, inr, Bool, true, false, ◌&&◌, Option, none, some, List, [], ◌∷◌, ◌++◌,
  reverse, arith, ltb, ◌==◌, if◌then◌else◌, Bool-cases, Text, codes, length, take, keep,
  length-append, All,
}
use mathlib.Core.Path.{subst}
use mathlib.Core.List.{reverse_aux}
use micro_manus_services.Db.{Db, UploadRow}

abbrev pub per_file_text_cap : ℕ
per_file_text_cap = 8000

abbrev pub total_context_cap : ℕ
total_context_cap = 24000

-- A file that is attached to the thread and has a text.
abbrev pub in_thread : ℕ → Option ℕ → Bool
in_thread thread none = false
in_thread thread (some t) = t == thread

abbrev pub has_text : Option Text → Bool
has_text none = false
has_text (some []) = false
has_text (some (c ∷ cs)) = true

abbrev pub is_readable : ℕ → UploadRow → Bool
is_readable thread u = in_thread thread u.thread_id && has_text u.text_content

abbrev text_of : UploadRow → Text
text_of u = elim u.text_content [ none ↦ [] | some t ↦ t ]

abbrev opening : Text
opening = codes "<attached_files>\nThe user attached these files — use them as primary context:\n"

abbrev closing : Text
closing = codes "</attached_files>"

-- `\n--- ${r.filename} ---\n${slice}\n`
abbrev pub section : UploadRow → Text → Text
section u slice = codes "\n--- " ++ u.filename ++ codes " ---\n" ++ slice ++ codes "\n"

-- The loop: it stops at the first file that would pass the cap.
unfoldable pub add_files : Text → List UploadRow → Text
add_files out [] = out
add_files out (u ∷ us) =
    let slice = take per_file_text_cap (text_of u) in
    let rest = add_files (out ++ section u slice) us in
    if ltb total_context_cap (length out + length slice) then out else rest

abbrev pub block_of : List UploadRow → Option Text
block_of [] = none
block_of (u ∷ us) = some (add_files opening (u ∷ us) ++ closing)

-- `contextBlock`; the table has its newest row first.
unfoldable pub context_block : ℕ → Db → Option Text
unfolding add_files
context_block thread d = block_of (reverse (keep (is_readable thread) d.uploads))

-- Names are cut to 200 characters when a file is saved.
abbrev pub ShortNames : List UploadRow → Type 0
ShortNames = All (λ u. length u.filename ≤ 200)

ltb-false : (a b : ℕ) → ltb a b ≡ false → b ≤ a
ltb-false a b h = ground arith

length-section :
    (u : UploadRow) (slice : Text)
    → length (section u slice) ≡ length u.filename + length slice + 11
length-section u slice = omega (
  arith,
  length-append (codes "\n--- " ++ u.filename ++ codes " ---\n" ++ slice) (codes "\n"),
  length-append (codes "\n--- " ++ u.filename ++ codes " ---\n") slice,
  length-append (codes "\n--- " ++ u.filename) (codes " ---\n"),
  length-append (codes "\n--- ") u.filename,
)

length-add_files :
    (us : List UploadRow) (out : Text)
    → ShortNames us
    → length out ≤ total_context_cap + 211
    → length (add_files out us) ≤ total_context_cap + 211
unfolding add_files
length-add_files [] out h b = b
length-add_files (u ∷ us) out h b =
    elim (Bool-cases
      (ltb total_context_cap (length out + length (take per_file_text_cap (text_of u))))) [
        | inl full ↦ rw full b
        | inr fits ↦ rw fits (
            length-add_files us _ h.1 (
              omega (
                arith,
                h.0,
                ltb-false _ _ fits,
                length-append out (section u (take per_file_text_cap (text_of u))),
                length-section u (take per_file_text_cap (text_of u)),
              )))
      ]

length-block_of :
    (us : List UploadRow) (block : Text)
    → ShortNames us
    → block_of us ≡ some block
    → length block ≤ total_context_cap + 228
length-block_of [] block h e = absurd cc
length-block_of (u ∷ us) block h e =
    subst (λ b. length b ≤ total_context_cap + 228) (same e)
      (omega (
        arith,
        length-append (add_files opening (u ∷ us)) closing,
        length-add_files (u ∷ us) opening h (omega arith),
      ))
  where
    same : block_of (u ∷ us) ≡ some block → add_files opening (u ∷ us) ++ closing ≡ block
    same e = cc

ShortNames-reverse_aux :
    (us vs : List UploadRow) → ShortNames us → ShortNames vs → ShortNames (reverse_aux us vs)
ShortNames-reverse_aux [] vs h k = k
ShortNames-reverse_aux (u ∷ us) vs h k = ShortNames-reverse_aux us (u ∷ vs) h.1 (h.0, k)

ShortNames-reverse : (us : List UploadRow) → ShortNames us → ShortNames (reverse us)
ShortNames-reverse us h = ShortNames-reverse_aux us [] h tt

ShortNames-keep :
    (p : UploadRow → Bool) (us : List UploadRow) → ShortNames us → ShortNames (keep p us)
ShortNames-keep p [] h = tt
ShortNames-keep p (u ∷ us) h = elim (Bool-cases (p u)) [
  | inl kept ↦ rw kept (h.0, ShortNames-keep p us h.1)
  | inr gone ↦ rw gone (ShortNames-keep p us h.1)
]

-- Where stored file names have 200 characters at most, the block of attached files that the model
-- gets has 24228 characters at most, however many files the thread has.
pub length-context_block :
    (thread : ℕ) (d : Db) (block : Text)
    → ShortNames d.uploads
    → context_block thread d ≡ some block
    → length block ≤ total_context_cap + 228
unfolding context_block
length-context_block thread d block h e =
    length-block_of _ block
      (ShortNames-reverse _ (ShortNames-keep (is_readable thread) d.uploads h)) e
