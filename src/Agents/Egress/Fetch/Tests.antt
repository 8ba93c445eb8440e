-- ===== src/Agents/Egress/Fetch/Tests.antt =====
-- A URL of a parser and a resolver that know one name.
use nagent.Prelude.{ℕ, ◌≡◌, refl, true, Option, some, List, [], ◌∷◌}
use nagent.Prelude.Text.{Text, codes, text_eq, to_ascii_lowercase, strip_prefix, ends_with}
use nagent.Net.{IpAddr, v4, is_loopback}
use nagent.Agents.Egress.{is_addr_allowed, is_v4_allowed}
use nagent.Agents.Egress.Fetch.{
  EgressConfig, Url, ValidateOk, ok, finalize, byte_budget, validate, validate_host,
  validate_addresses, first_disallowed, host_matches_allowlist, entry_matches,
}
use nagent.Agents.Egress.Fetch.Safety.{IsSafe, validate_sound}

abbrev site : Url
site = record {
  scheme_of = codes "https";
  host_str = some (codes "a.io");
  port_or_known_default = some 443;
}

abbrev parse : Text → Option Url
parse s = some site

abbrev lookup_host : Text → ℕ → Option (List IpAddr)
lookup_host host port = some (v4 93 184 216 34 ∷ [])

abbrev config : EgressConfig
config = finalize (record {
  timeout_ms = 0;
  allow_public = true;
  allowlist = [];
  max_bytes = 2048;
  user_agent = codes "nagent";
})

abbrev accepted : ValidateOk
accepted = record { url = site; host = codes "a.io"; addresses = v4 93 184 216 34 ∷ [] }

site_accepted : validate parse lookup_host config (codes "https://a.io/") ≡ ok accepted
unfolding finalize validate validate_host validate_addresses first_disallowed is_addr_allowed
    is_v4_allowed is_loopback text_eq
site_accepted = refl

validate_sound_example : IsSafe config accepted
validate_sound_example =
    validate_sound parse lookup_host config (codes "https://a.io/") accepted site_accepted

subdomain_listed :
    host_matches_allowlist (codes "api.Example.org") (codes "*.example.org" ∷ []) ≡ true
unfolding host_matches_allowlist entry_matches to_ascii_lowercase strip_prefix text_eq ends_with
subdomain_listed = refl

smallest_budget : byte_budget config (some 10) ≡ 1024
unfolding byte_budget finalize
smallest_budget = refl
