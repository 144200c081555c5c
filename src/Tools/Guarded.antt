-- ===== src/Tools/Guarded.antt =====
-- Which addresses the tool of src/tools/fetch-url.tool.ts reaches, and how much it returns.
use micro_manus_services.Base.{
  ℕ, zero, suc, ◌+◌, ◌≤◌, ◌≡◌, refl, inl, inr, true, false, ◌&&◌, Option, none, some, List, [], ◌∷◌,
  arith, ltb, leb, Bool-cases, Text, codes, length, take, any, length-append, length-take-le, All,
}
use mathlib.Core.Path.{subst}
use micro_manus_services.Db.{Result, ok, err}
use micro_manus_services.Keys.Accepted.{injected}
use micro_manus_services.Tools.FetchUrl.{
  Url, Page, Net, is_private, addresses, is_web, check_addresses, check_url, assert_public, Trace,
  redirects, then_assert, then_next, follow, on_page, last_page, hops, start, requests, clip,
  content_of, answered, fetch_content, max_chars, page_text,
}

module _ (net : Net) where
  -- A web address of which no lookup result was private.
  abbrev pub Checked : Url → Type 0
  Checked u =
      (is_web net u ≡ true)
      × (ips : List Text) × (addresses net u.hostname ≡ ok ips)
      × (any is_private ips ≡ false)

  check_addresses-Checked :
      (u v : Url) (r : Result (List Text))
      → is_web net u ≡ true
      → addresses net u.hostname ≡ r
      → check_addresses net u r ≡ ok v
      → Checked v
  check_addresses-Checked u v (err e) w a h = cc
  check_addresses-Checked u v (ok ips) w a h = elim (Bool-cases (any is_private ips)) [
    | inl private ↦ absurd (ground (arith, h, private))
    | inr public ↦ subst Checked (same public) (w, ips, a, public)
  ]
    where
      same : any is_private ips ≡ false → u ≡ v
      same public = ground (arith, h, public)

  check_url-Checked : (o : Option Url) (v : Url) → check_url net o ≡ ok v → Checked v
  check_url-Checked none v h = cc
  check_url-Checked (some u) v h = elim (Bool-cases (is_web net u)) [
    | inl web ↦ check_addresses-Checked u v (addresses net u.hostname) web refl (rw web at h)
    | inr other ↦ absurd (ground (arith, h, other))
  ]

  assert_public-Checked : (raw : Text) (v : Url) → assert_public net raw ≡ ok v → Checked v
  unfolding assert_public
  assert_public-Checked raw v h = check_url-Checked (net.parse_url raw) v h

  then_next-Checked :
      (next : Url → Trace net) (r : Result Text)
      → ((v : Url) → Checked v → All Checked (next v).0)
      → All Checked (then_next net next (then_assert net r)).0
  then_next-Checked next (err e) h = tt
  then_next-Checked next (ok t) h = by_url (assert_public net t) (assert_public-Checked t)
    where
      by_url :
          (o : Result Url)
          → ((v : Url) → o ≡ ok v → Checked v)
          → All Checked (then_next net next o).0
      by_url (err e) k = tt
      by_url (ok v) k = h v (k v refl)

  follow-Checked :
      (next : Url → Trace net) (u : Url) (p : Page) (l : Option Text)
      → ((v : Url) → Checked v → All Checked (next v).0)
      → All Checked (follow net next u p l).0
  follow-Checked next u p none h = tt
  follow-Checked next u p (some []) h = tt
  follow-Checked next u p (some (c ∷ cs)) h = then_next-Checked next (net.resolve_url (c ∷ cs) u) h

  on_page-Checked :
      (next : Url → Trace net) (u : Url) (r : Result Page)
      → ((v : Url) → Checked v → All Checked (next v).0)
      → All Checked (on_page net next u r).0
  on_page-Checked next u (err e) h = tt
  on_page-Checked next u (ok p) h = elim (Bool-cases (redirects net p)) [
    | inl moved ↦ rw moved (follow-Checked next u p p.location h)
    | inr final ↦ rw final tt
  ]

  last_page-Checked : (u : Url) (r : Result Page) → All Checked (last_page net u r).0
  last_page-Checked u (err e) = tt
  last_page-Checked u (ok p) = tt

  hops-Checked : (n : ℕ) (u : Url) → Checked u → All Checked (hops net n u).0
  unfolding hops
  hops-Checked zero u c = (c, last_page-Checked u (net.fetch u))
  hops-Checked (suc n) u c = (c, on_page-Checked (hops net n) u (net.fetch u) (hops-Checked n))

  -- Every URL that the tool requests, also after redirects, is a web address whose host had no
  -- private address when the tool looked it up.
  pub requests-Checked : (raw : Text) → All Checked (requests net raw).0
  unfolding requests
  requests-Checked raw = by_url (assert_public net raw) (assert_public-Checked raw)
    where
      by_url : (o : Result Url) → ((v : Url) → o ≡ ok v → Checked v) → All Checked (start net o).0
      by_url (err e) k = tt
      by_url (ok v) k = hops-Checked 5 v (k v refl)

  length-on_page :
      (next : Url → Trace net) (n : ℕ) (u : Url) (r : Result Page)
      → ((v : Url) → length (next v).0 ≤ n)
      → length (on_page net next u r).0 ≤ n
  length-on_page next n u (err e) h = omega arith
  length-on_page next n u (ok p) h = elim (Bool-cases (redirects net p)) [
    | inl moved ↦ rw moved (by_location p.location)
    | inr final ↦ rw final (omega arith)
  ]
    where
      by_url : (o : Result Url) → length (then_next net next o).0 ≤ n
      by_url (err e) = omega arith
      by_url (ok v) = h v

      by_location : (l : Option Text) → length (follow net next u p l).0 ≤ n
      by_location none = omega arith
      by_location (some []) = omega arith
      by_location (some (c ∷ cs)) = by_url (then_assert net (net.resolve_url (c ∷ cs) u))

  length-last_page : (u : Url) (r : Result Page) → length (last_page net u r).0 ≡ 0
  length-last_page u (err e) = refl
  length-last_page u (ok p) = refl

  length-hops : (n : ℕ) (u : Url) → length (hops net n u).0 ≤ suc n
  unfolding hops
  length-hops zero u = omega (arith, length-last_page u (net.fetch u))
  length-hops (suc n) u =
      omega (arith, length-on_page (hops net n) (suc n) u (net.fetch u) (length-hops n))

  -- The tool that fetches a page makes six requests at most for one argument.
  pub length-requests : (raw : Text) → length (requests net raw).0 ≤ 6
  unfolding requests
  length-requests raw = by_url (assert_public net raw)
    where
      by_url : (o : Result Url) → length (start net o).0 ≤ 6
      by_url (err e) = omega arith
      by_url (ok v) = length-hops 5 v

  length-clip : (t : Text) → length (clip net t) ≤ max_chars + 13
  length-clip t = elim (Bool-cases (ltb max_chars (length t))) [
    | inl long ↦ rw long (
        omega (
          arith,
          length-append (take max_chars t) (codes "\n…[truncated]"),
          length-take-le max_chars t,
        ))
    | inr short ↦
        rw short (omega (arith, length-append (take max_chars t) [], length-take-le max_chars t))
  ]

  -- What the tool that fetches a page gives to the model, where it returns, has 8013 characters at
  -- most.
  pub length-fetch_content :
      (raw content : Text) → fetch_content net raw ≡ ok content → length content ≤ max_chars + 13
  unfolding fetch_content
  length-fetch_content raw content h = by_page (requests net raw).1 h
    where
      by_body :
          (p : Page) (b : Result Text)
          → content_of net p b ≡ ok content
          → length content ≤ max_chars + 13
      by_body p (err e) h = cc
      by_body p (ok body) h =
          subst (λ t. length t ≤ max_chars + 13) (injected h)
            (length-clip (page_text net p.content_type (take 500000 body)))

      by_page :
          (r : Result (Url × Page)) → answered net r ≡ ok content → length content ≤ max_chars + 13
      by_page (err e) h = cc
      by_page (ok (u, p)) h = elim (Bool-cases (leb 200 p.status && leb p.status 299)) [
        | inl fine ↦ by_body p p.body (rw fine at h)
        | inr failed ↦
            subst (λ t. length t ≤ max_chars + 13) (injected (rw failed at h)) (omega arith)
      ]
