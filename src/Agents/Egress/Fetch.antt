-- ===== src/Agents/Egress/Fetch.antt =====
-- crates/nagent-agents/src/egress.rs: the check of a URL before a request, and the bounded reading of
-- a body. The URL parser and the resolver are other crates: parameters.
pub mod Safety
mod Tests
use nagent.Prelude.{
  ℕ, ◌+◌, ◌*◌, Bool, true, false, not, Option, none, some, min, max, ltb, ◌&&◌, ◌||◌, if◌then◌else◌,
  List, [], ◌∷◌, ◌++◌, length,
}
use nagent.Prelude.Words.{unwrap_or}
use nagent.Prelude.Text.{
  Text, codes, to_ascii_lowercase, strip_prefix, text_eq, ends_with, is_empty,
}
use nagent.Net.{IpAddr}
use nagent.Agents.Egress.{is_addr_allowed}

pub record EgressConfig : Type 0 where
  pub timeout_ms : ℕ
  pub allow_public : Bool
  pub allowlist : List Text
  pub max_bytes : ℕ
  pub user_agent : Text

unfoldable pub finalize : EgressConfig → EgressConfig
finalize cfg = record cfg {
  timeout_ms = max cfg.timeout_ms 1000;
  max_bytes = max cfg.max_bytes 1024;
}

-- the test of one entry of the allow list
unfoldable pub entry_matches : Text → Text → Bool
entry_matches host_lc entry =
    let lower = to_ascii_lowercase entry in
    if text_eq lower (codes "*") then true else elim (strip_prefix (codes "*.") lower) [
      | some suffix ↦ text_eq host_lc suffix || ends_with (b'.' ∷ suffix) host_lc
      | none ↦ text_eq host_lc lower
    ]

unfoldable pub host_matches_allowlist : Text → List Text → Bool
host_matches_allowlist host [] = false
host_matches_allowlist host (entry ∷ entries) =
    let rest = host_matches_allowlist host entries in
    if entry_matches (to_ascii_lowercase host) entry then true else rest

pub data EgressError : Type 0 where
  url_parse no_host dns transport : EgressError
  scheme : Text → EgressError
  not_in_allowlist : Text → EgressError
  disallowed_address : Text → IpAddr → EgressError
  response_exceeded : ℕ → EgressError

pub data Outcome (A : Type 0) : Type 0 where
  ok : A → Outcome A
  err : EgressError → Outcome A

-- what the program reads of a `url::Url`
pub record Url : Type 0 where
  pub scheme_of : Text
  pub host_str : Option Text
  pub port_or_known_default : Option ℕ

pub record ValidateOk : Type 0 where
  pub url : Url
  pub host : Text
  pub addresses : List IpAddr

-- the loop over the addresses: the first one that the policy rejects
unfoldable pub first_disallowed : Bool → List IpAddr → Option IpAddr
first_disallowed allow_public [] = none
first_disallowed allow_public (a ∷ addrs) =
    let rest = first_disallowed allow_public addrs in
    if is_addr_allowed a allow_public then rest else some a

-- from the resolved addresses on
unfoldable pub validate_addresses :
    EgressConfig → Bool → Url → Text → List IpAddr → Outcome ValidateOk
validate_addresses cfg host_allowlisted url host [] = err dns
validate_addresses cfg host_allowlisted url host (a ∷ addrs) =
    let fine : Outcome ValidateOk = ok (record { url = url; host = host; addresses = a ∷ addrs }) in
    if host_allowlisted then fine else elim (first_disallowed cfg.allow_public (a ∷ addrs)) [
      | some bad ↦ err (disallowed_address host bad)
      | none ↦ fine
    ]

-- the schemes that the match lets through
abbrev pub is_web : Text → Bool
is_web s = text_eq s (codes "http") || text_eq s (codes "https")

module _ (parse : Text → Option Url) (lookup_host : Text → ℕ → Option (List IpAddr))
    (cfg : EgressConfig) where
  -- from the host on
  unfoldable pub validate_host : Url → Text → Outcome ValidateOk
  validate_host url host =
      let listed = not (is_empty cfg.allowlist) in
      let host_allowlisted = listed && host_matches_allowlist host cfg.allowlist in
      if listed && not host_allowlisted
      then err (not_in_allowlist host)
      else elim (lookup_host host (unwrap_or url.port_or_known_default 443)) [
        | none ↦ err dns
        | some addrs ↦ validate_addresses cfg host_allowlisted url host addrs
      ]

  unfoldable pub validate : Text → Outcome ValidateOk
  validate url_str = elim (parse url_str) [
    | none ↦ err url_parse
    | some url ↦
        if is_web url.scheme_of
        then elim url.host_str [ none ↦ err no_host | some host ↦ validate_host url host ]
        else err (scheme url.scheme_of)
  ]

unfoldable pub byte_budget : EgressConfig → Option ℕ → ℕ
byte_budget cfg max_bytes = max (min (unwrap_or max_bytes cfg.max_bytes) cfg.max_bytes) 1024

-- The loop of `get` and `get_stream` over the body, in bytes; `none` is a chunk that fails.
unfoldable pub read_body : ℕ → List ℕ → List (Option (List ℕ)) → Outcome (List ℕ)
read_body budget buf [] = ok buf
read_body budget buf (none ∷ chunks) = err transport
read_body budget buf (some chunk ∷ chunks) =
    let rest = read_body budget (buf ++ chunk) chunks in
    if ltb budget (length buf + length chunk) then err (response_exceeded budget) else rest
