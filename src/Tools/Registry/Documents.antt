-- ===== src/Tools/Registry/Documents.antt =====
-- A file that a run makes and its reading: `create` and `getOwned` of
-- src/artifacts/artifact.service.ts.
use micro_manus_services.Base.{
  ℕ, ⊤, ◌≡◌, refl, sym, ◌∙◌, Bool, true, false, ◌&&◌, Option, none, some, List, [], ◌∷◌, ◌++◌,
  arith, ◌==◌, if◌then◌else◌, ==_iff, Text, codes, find, any, update_where,
}
use micro_manus_services.Db.{
  http, Db, Query, Result, ok, err, ArtifactRow, ThreadRow, pure, throw, then_run, ◌>>=◌, ◌>>◌,
}
use micro_manus_services.Db.Statements.{is_thread}
use micro_manus_services.Keys.Accepted.{injected}
use micro_manus_services.Artifacts.{
  Files, bytes_of, insert_artifact, set_path, allowed_type, has_run, lift_query, new_artifact,
  keep_artifact, create_artifact, has_extension, get_owned, get_by_id, artifact_or_not_found,
  owned_by,
}

-- A success gives the key of the row, which is new and is all that the query adds.
abbrev FiledIfOk : ArtifactRow → Db → Result ℕ × Db → Type 0
FiledIfOk a d (ok id, d') =
    (id ≡ a.id)
    × (d' ≡ record d { artifacts = a ∷ d.artifacts })
    × (any (λ b. b.id == a.id) d.artifacts ≡ false)
FiledIfOk a d (err e, d') = ⊤

update_where-new :
    (id : ℕ) (f : ArtifactRow → ArtifactRow) (rest : List ArtifactRow)
    → any (λ b. b.id == id) rest ≡ false
    → update_where (λ b. b.id == id) f rest ≡ rest
update_where-new id f [] h = refl
update_where-new id f (a ∷ rest) h = ground (arith, update_where-new id f rest)

find-new :
    (user id : ℕ) (ts : List ThreadRow) (rest : List ArtifactRow)
    → any (λ b. b.id == id) rest ≡ false
    → find (owned_by user id ts) rest ≡ none
find-new user id ts [] h = refl
find-new user id ts (a ∷ rest) h = ground (arith, find-new user id ts rest)

lift-Filed :
    {A : Type 0} (a : ArtifactRow) (d d' : Db) (f : A → Query ℕ) (r : Result A)
    → ((b : A) → FiledIfOk a d (f b d'))
    → FiledIfOk a d (then_run f (r, d'))
lift-Filed a d d' f (ok b) h = h b
lift-Filed a d d' f (err e) h = tt

if-Filed :
    (a : ArtifactRow) (d : Db) (b : Bool) (f : ⊤ → Query ℕ) (x y : Result ⊤ × Db)
    → (b ≡ true → FiledIfOk a d (then_run f x))
    → (b ≡ false → FiledIfOk a d (then_run f y))
    → FiledIfOk a d (then_run f (if b then x else y))
if-Filed a d true f x y h k = h refl
if-Filed a d false f x y h k = k refl

module _ (files : Files) (fresh thread run : ℕ) (type title content : Text) (d : Db) where
  abbrev path : Text
  path = files.path_of thread fresh type

  -- The row as it is left.
  abbrev pub filed : ArtifactRow
  filed = record (new_artifact files fresh thread run type title content) { file_path = path }

  abbrev writing : Text → ⊤ → Query ℕ
  writing bytes _ = do
    written ← lift_query (files.write_file path bytes)
    set_path fresh path
    pure fresh

  set_path-new :
      any (λ b. b.id == fresh) d.artifacts ≡ false
      → (set_path fresh path (record d {
        artifacts = new_artifact files fresh thread run type title content ∷ d.artifacts;
      })).1
        ≡ record d { artifacts = filed ∷ d.artifacts }
  unfolding set_path
  set_path-new new =
      rw ((==_iff fresh fresh).1 refl)
        (rw (update_where-new fresh (λ a. record a { file_path = path }) d.artifacts new) refl)

  writing-Filed :
      (bytes : Text)
      → any (λ b. b.id == fresh) d.artifacts ≡ false
      → FiledIfOk filed d (
          writing bytes tt (record d {
            artifacts = new_artifact files fresh thread run type title content ∷ d.artifacts;
          }))
  unfolding set_path
  writing-Filed bytes new =
      lift-Filed filed d _ (λ (_ : ⊤). set_path fresh path >> pure fresh)
        (files.write_file path bytes) λ _. (refl, set_path-new new, new)

  keep-Filed : FiledIfOk filed d (keep_artifact files fresh thread run type title content d)
  unfolding keep_artifact insert_artifact
  keep-Filed =
      lift-Filed filed d d
        (λ bytes.
          insert_artifact (new_artifact files fresh thread run type title content)
          >>= writing bytes)
        (bytes_of files type title content)
        λ bytes.
          if-Filed filed d (any (λ b. b.id == fresh) d.artifacts) (writing bytes) _ _ (λ _. tt)
            λ new.
              if-Filed filed d (allowed_type type) (writing bytes) _ _
                (λ _.
                  if-Filed filed d (any (is_thread thread) d.threads && has_run (some run) d.runs)
                    (writing bytes) _ _ (λ _. writing-Filed bytes new) (λ _. tt))
                (λ _. tt)

  create-Filed : FiledIfOk filed d (create_artifact files fresh thread run type title content d)
  unfolding create_artifact
  create-Filed = go (has_extension type)
    where
      go :
          (b : Bool)
          → FiledIfOk filed d (
              (if b
                  then keep_artifact files fresh thread run type title content
                  else throw (http 400 (codes "Unsupported artifact type: " ++ type)))
                d)
      go true = keep-Filed
      go false = tt

  found :
      (user : ℕ) (d' : Db)
      → any (λ b. b.id == fresh) d.artifacts ≡ false
      → (artifact_or_not_found (find (owned_by user fresh d.threads) (filed ∷ d.artifacts)) d').0
        ≡ (if any (λ t. t.id == thread && (t.user_id == user)) d.threads
            then ok filed
            else err (http 404 (codes "Artifact not found")))
  found user d' new = rw (find-new user fresh d.threads d.artifacts new) (
      rw ((==_iff fresh fresh).1 refl)
        (go (any (λ t. t.id == thread && (t.user_id == user)) d.threads)))
    where
      go :
          (b : Bool)
          → (artifact_or_not_found (if b then some filed else none) d').0
            ≡ (if b then ok filed else err (http 404 (codes "Artifact not found")))
      go true = refl
      go false = refl

  -- After a successful `create`, whose key is the fresh one, `getOwned` with that key gives the
  -- owner of the thread the file, and anyone else the error of a missing one.
  pub create_artifact-get_owned :
      (read_uuid : Text → Option ℕ) (user id : ℕ) (key : Text)
      → read_uuid key ≡ some fresh
      → (create_artifact files fresh thread run type title content d).0 ≡ ok id
      → (id ≡ fresh)
        × ((get_owned read_uuid user key
              (create_artifact files fresh thread run type title content d).1).0
            ≡ (if any (λ t. t.id == thread && (t.user_id == user)) d.threads
                then ok filed
                else err (http 404 (codes "Artifact not found"))))
  unfolding get_owned
  create_artifact-get_owned read_uuid user id key h q =
      rw h (go (create_artifact files fresh thread run type title content d) create-Filed q)
    where
      go :
          (x : Result ℕ × Db)
          → FiledIfOk filed d x
          → x.0 ≡ ok id
          → (id ≡ fresh)
            × ((get_by_id user (some fresh) x.1).0 ≡ (
                if any (λ t. t.id == thread && (t.user_id == user)) d.threads
                then ok filed
                else err (http 404 (codes "Artifact not found"))))
      go (ok i, d') (e, f, new) k = (
        sym (injected k) ∙ e,
        rw f (found user (record d { artifacts = filed ∷ d.artifacts }) new),
      )
      go (err e, d') h k = absurd cc
