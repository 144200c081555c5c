-- ===== src/Keys/Accepted.antt =====
-- Which keys are kept (src/keys/keys.service.ts).
use micro_manus_services.Base.{◌≡◌, refl, Bool, Option, List, [], ◌∷◌, ◌++◌, Text}
use micro_manus_services.Db.{Result, ok, err, Error, KeyProvider}
use mathlib.Core.Path.{subst}
use micro_manus_services.Keys.Probe.{
  Fetch, ProbeResult, probe, candidates, try_candidates, fetch_models, base_for, probe_error,
}

pub injected : {A : Type 0} {a b : A} → ok a ≡ ok b → a ≡ b
injected e = cc

module _ (fetch : Fetch) where
  -- The provider of the result has accepted the key at the URL of the result.
  abbrev pub Accepted : Text → ProbeResult → Type 0
  Accepted key p = fetch_models fetch p.provider p.base_url key ≡ ok p.models

  try_candidates-Accepted :
      (key : Text) (base : Option Text) (single : Bool) (errors : List Text) (ps : List KeyProvider)
      (p : ProbeResult)
      → try_candidates fetch key base single errors ps ≡ ok p
      → Accepted key p
  unfolding try_candidates
  try_candidates-Accepted key base single errors [] p h = cc
  try_candidates-Accepted key base single errors (q ∷ qs) p h =
      by_answer (fetch_models fetch q (base_for base single q) key) refl
        (λ e. try_candidates-Accepted key base single (errors ++ probe_error fetch q e ∷ []) qs p)
    where
      by_answer :
          (r : Result (List Text))
          → fetch_models fetch q (base_for base single q) key ≡ r
          → ((e : Error)
              → try_candidates fetch key base single (errors ++ probe_error fetch q e ∷ []) qs
                ≡ ok p
              → Accepted key p)
          → Accepted key p
      by_answer (ok models) e next = subst (Accepted key) (injected (rw e at h)) e
      by_answer (err x) e next = next x (rw e at h)

  -- Where the probe of a key returns a provider, that provider has accepted the key at the URL that
  -- is returned, with the models that are returned.
  pub probe-Accepted :
      (key : Text) (provider : Option KeyProvider) (base : Option Text) (p : ProbeResult)
      → probe fetch key provider base ≡ ok p
      → Accepted key p
  unfolding probe
  probe-Accepted key provider base p h =
      try_candidates-Accepted key base _ [] (candidates key provider) p h
