-- ===== src/Artifacts/Named.antt =====
-- The name under which src/artifacts/artifacts.controller.ts offers a file.
use micro_manus_services.Base.{
  ℕ, ◌≡◌, refl, sym, ap, ◌≢◌, Bool, true, some, [], ◌∷◌, ◌++◌, arith, Text, keep, all,
}
use micro_manus_services.Base.Chars.{trim, all-trim}
use micro_manus_services.Keys.Accepted.{injected}
use micro_manus_services.Db.{Db, Result, ok, err, ArtifactRow, then_run, pure}
use micro_manus_services.Artifacts.{get_by_id}
use micro_manus_services.Artifacts.Serve.{
  Attachment, is_name_char, or_artifact, safe_name, attachment_of, download,
}

all-keep : (p : ℕ → Bool) (t : Text) → all p (keep p t) ≡ true
all-keep p [] = refl
all-keep p (c ∷ cs) = ground (arith, all-keep p cs)

-- A name of plain characters, and not the empty one.
pub record IsPlain (t : Text) : Type 0 where
  pub plain : all is_name_char t ≡ true
  pub filled : t ≢ []

or_artifact-IsPlain : (t : Text) → all is_name_char t ≡ true → IsPlain (or_artifact t)
or_artifact-IsPlain [] h = record { plain = refl; filled = λ e. cc }
or_artifact-IsPlain (c ∷ cs) h = record { plain = h; filled = λ e. cc }

safe_name-IsPlain : (title : Text) → IsPlain (safe_name title)
unfolding safe_name
safe_name-IsPlain title =
    or_artifact-IsPlain (trim (keep is_name_char title))
      (all-trim is_name_char (keep is_name_char title) (all-keep is_name_char title))

module _ (abs_path : Text → Text) (user id : ℕ) (d : Db) where
  -- A file is offered under a name of letters, digits, underscores, dashes and spaces that is not
  -- empty, with a dot and a type behind it.
  pub download-IsPlain :
      (r : Attachment)
      → (download abs_path user id d).0 ≡ ok r
      → (name : Text) × (type : Text) × (r.filename ≡ name ++ 46 ∷ type) × IsPlain name
  unfolding download attachment_of
  download-IsPlain r h = go (get_by_id user (some id) d) h
    where
      go :
          (x : Result ArtifactRow × Db)
          → (then_run (λ a. pure (attachment_of abs_path a)) x).0 ≡ ok r
          → (name : Text) × (type : Text) × (r.filename ≡ name ++ 46 ∷ type) × IsPlain name
      go (err e, d') k = absurd cc
      go (ok a, d') k = (
        safe_name a.title,
        a.type,
        ap (λ (x : Attachment). x.filename) (sym (injected k)),
        safe_name-IsPlain a.title,
      )
