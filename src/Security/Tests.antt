-- ===== src/Security/Tests.antt =====
-- Small checks of addresses and URLs, and the theorems at them.
use eeebot_self_evolving.Prelude.{
  ℕ, ◌≡◌, ◌↔◌, refl, Bool, true, false, some, String, [], ◌∷◌, codes, text_of, take, str_eq,
}
use eeebot_self_evolving.Prelude.Effects.{ok}
use eeebot_self_evolving.Memory.Store.{is_prefix}
use eeebot_self_evolving.Security.{Address, ipv6, dotted, is_private}
use eeebot_self_evolving.Security.Internal.{in_ranges, is_private_lem}
use eeebot_self_evolving.Security.Fetch.{
  Lookup, Net, verdict_of, validate_parsed, validate_url_target, any_refused, match_url, find_urls,
  contains_internal_url,
}
use eeebot_self_evolving.Security.Urls.{is_boundary}
use eeebot_self_evolving.Security.Guard.{
  IsFetchable, validate_url_target_lem, contains_internal_url_lem,
}

-- Two hosts, of which "intern" has a private address.
abbrev net : Net
net = record {
  urlparse = λ url. some (record {
    scheme = "http";
    netloc = "host";
    hostname = some (if_public (str_eq url "http://example.org/"));
  });
  parse_error = λ url. "Invalid URL";
  getaddrinfo = λ n host. Lookup.found (host ∷ []);
  ip_address = λ t. some (if_example (str_eq t "example"));
  show = λ a. "address";
}
  where
    if_public : Bool → String
    if_public true = "example"
    if_public false = "intern"

    if_example : Bool → Address
    if_example true = dotted 93 184 216 34
    if_example false = dotted 10 0 0 7

is_private_lem_example : is_private (dotted 172 31 255 255) ≡ in_ranges (dotted 172 31 255 255)
is_private_lem_example = is_private_lem (dotted 172 31 255 255)

program : Unit {0}
unfolding is_private verdict_of validate_parsed validate_url_target any_refused match_url find_urls
    contains_internal_url is_prefix is_boundary
program = tt

-- The loopback address of IPv4, written as an address of IPv6, is not blocked.
mapped_loopback : is_private (ipv6 281472812449793) ≡ false
unfolding program
mapped_loopback = refl

refuses_intern : (contains_internal_url net "wget HTTPS://intern" 0).0 ≡ ok true
unfolding program
refuses_intern = refl

validate_url_target_lem_example :
    ((validate_url_target net "http://example.org/" 0).0 ≡ ok (true, ""))
    ↔ (IsFetchable net "http://example.org/" 0 × ◌≡◌ {A = String} "" "")
validate_url_target_lem_example = validate_url_target_lem net "http://example.org/" 0 ""

passes_example : (contains_internal_url net "curl http://example.org/ -s" 0).0 ≡ ok false
unfolding program
passes_example = refl

matches_example : match_url (codes "http://example.org/ -s") ≡ some 19
unfolding program
matches_example = refl

begins_word : is_boundary (codes "curl ") ≡ true
unfolding program
begins_word = refl

contains_internal_url_lem_example :
    (i : ℕ) × IsFetchable net (text_of (take 19 (codes "http://example.org/ -s"))) i
contains_internal_url_lem_example =
    contains_internal_url_lem net "curl http://example.org/ -s" (codes "curl ")
      (codes "http://example.org/ -s") 19 0 refl begins_word matches_example passes_example
