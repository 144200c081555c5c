-- ===== src/Tests/Pages.antt =====
-- The fetching of pages at concrete inputs.
use micro_manus_services.Base.{
  ◌+◌, ◌≤◌, ◌≡◌, refl, true, none, some, [], if◌then◌else◌, Text, codes, length, All, text_eq,
}
use micro_manus_services.Base.Chars.{to_lower_case}
use micro_manus_services.Db.{ok}
use micro_manus_services.Tools.FetchUrl.{
  Url, Page, Net, is_private, is_private_v4, split_dots, digits_value, mapped, assert_public, hops,
  requests, fetch_content, max_chars,
}
use micro_manus_services.Tools.Guarded.{Checked, requests-Checked, length-fetch_content}

abbrev url : Text → Url
url host = record { protocol = codes "http:"; hostname = host; href = host }

abbrev moved : Page
moved = record {
  status = 302;
  location = some (codes "169.254.169.254");
  content_type = none;
  body = ok [];
}

abbrev plain : Page
plain = record { status = 200; location = none; content_type = none; body = ok (codes "Hi") }

-- `1.1.1.1` redirects to a private address; `8.8.8.8` has a page.
abbrev pub net : Net
net = record {
  parse_url = λ t. some (url t);
  resolve_url = λ t u. ok t;
  is_ip = λ t. true;
  lookup = λ t. ok [];
  fetch = λ u. ok (if text_eq u.hostname (codes "1.1.1.1") then moved else plain);
  html_to_text = λ t. t;
}

requests-Checked_example : All (Checked net) (requests net (codes "1.1.1.1")).0
requests-Checked_example = requests-Checked net (codes "1.1.1.1")

one_request : length (requests net (codes "1.1.1.1")).0 ≡ 1
unfolding requests hops assert_public is_private is_private_v4 split_dots digits_value mapped
    text_eq to_lower_case
one_request = refl

length-fetch_content_at_sample : length (codes "Hi") ≤ max_chars + 13
unfolding fetch_content requests hops assert_public is_private is_private_v4 split_dots digits_value
    mapped text_eq to_lower_case
length-fetch_content_at_sample = length-fetch_content net (codes "8.8.8.8") (codes "Hi") refl

mapped_loopback : is_private (codes "::FFFF:127.0.0.1") ≡ true
unfolding is_private is_private_v4 split_dots digits_value mapped text_eq to_lower_case
mapped_loopback = refl
