-- ===== src/Agents/Egress/Fetch/Safety.antt =====
-- What a validated URL and a body that was read in full guarantee.
use nagent.Prelude.{
  ℕ, ◌+◌, ◌≤◌, ◌≡◌, refl, sym, subst, Bool, true, false, not, ◌&&◌, ◌||◌, if◌then◌else◌, Option,
  none, some, List, [], ◌∷◌, ◌++◌, length, length-append, all, map, arith, inl, inr, Bool-cases,
  Option-cases, leb, ltb,
}
use nagent.Prelude.Words.{unwrap_or}
use nagent.Prelude.Text.{Text, is_empty}
use nagent.Net.{IpAddr}
use nagent.Agents.Egress.{is_addr_allowed}
use nagent.Agents.Egress.Fetch.{
  EgressConfig, Url, ValidateOk, ok, err, response_exceeded, host_matches_allowlist,
  first_disallowed, validate_addresses, validate_host, validate, is_web, read_body,
}

first_disallowed-none :
    (p : Bool) (addrs : List IpAddr)
    → first_disallowed p addrs ≡ none
    → all (λ a. is_addr_allowed a p) addrs ≡ true
unfolding first_disallowed
first_disallowed-none p [] h = refl
first_disallowed-none p (a ∷ addrs) h = elim (Bool-cases (is_addr_allowed a p)) [
  | inl fine ↦ rw fine (first_disallowed-none p addrs (grind (arith, fine, h)))
  | inr bad ↦ grind (arith, bad, h)
]

-- the promise of `validate` on its result
pub record IsSafe (cfg : EgressConfig) (v : ValidateOk) : Type 0 where
  pub web : is_web v.url.scheme_of ≡ true
  pub host : v.url.host_str ≡ some v.host
  pub resolved : is_empty v.addresses ≡ false
  -- where there is an allow list, the host is on it
  pub listed : (is_empty cfg.allowlist || host_matches_allowlist v.host cfg.allowlist) ≡ true
  -- a host that is on no allow list has allowed addresses only
  pub allowed :
      ((not (is_empty cfg.allowlist) && host_matches_allowlist v.host cfg.allowlist)
        || all (λ a. is_addr_allowed a cfg.allow_public) v.addresses)
      ≡ true

validate_addresses_sound :
    (cfg : EgressConfig) (listed : Bool) (url : Url) (host : Text) (addrs : List IpAddr)
    (v : ValidateOk)
    → validate_addresses cfg listed url host addrs ≡ ok v
    → (v ≡ record { url = url; host = host; addresses = addrs })
      × (is_empty addrs ≡ false)
      × ((listed || all (λ a. is_addr_allowed a cfg.allow_public) addrs) ≡ true)
unfolding validate_addresses
validate_addresses_sound cfg listed url host [] v h = grind (arith, h)
validate_addresses_sound cfg true url host (a ∷ addrs) v h = (grind (arith, h), refl, refl)
validate_addresses_sound cfg false url host (a ∷ addrs) v h =
    elim (Option-cases (first_disallowed cfg.allow_public (a ∷ addrs))) [
      | inl fine ↦
          (grind (arith, fine, h), refl, first_disallowed-none cfg.allow_public (a ∷ addrs) fine)
      | inr (bad, found) ↦ grind (arith, found, h)
    ]

validate_addresses-IsSafe :
    (cfg : EgressConfig) (on_list : Bool) (url : Url) (host : Text) (addrs : List IpAddr)
    (v : ValidateOk)
    → is_web url.scheme_of ≡ true
    → url.host_str ≡ some host
    → (is_empty cfg.allowlist || host_matches_allowlist host cfg.allowlist) ≡ true
    → on_list ≡ (not (is_empty cfg.allowlist) && host_matches_allowlist host cfg.allowlist)
    → validate_addresses cfg on_list url host addrs ≡ ok v
    → IsSafe cfg v
validate_addresses-IsSafe cfg on_list url host addrs v web there listed same h =
    let (e, resolved, fine) = validate_addresses_sound cfg on_list url host addrs v h in
    subst (λ (x : ValidateOk). IsSafe cfg x) (sym e)
      (record {
        web = web;
        host = there;
        resolved = resolved;
        listed = listed;
        allowed =
            subst (λ x. (x || all (λ a. is_addr_allowed a cfg.allow_public) addrs) ≡ true) same
              fine;
      })

module _ (parse : Text → Option Url) (lookup_host : Text → ℕ → Option (List IpAddr))
    (cfg : EgressConfig) where
  validate_host_sound :
      (url : Url) (host : Text) (v : ValidateOk)
      → is_web url.scheme_of ≡ true
      → url.host_str ≡ some host
      → validate_host parse lookup_host cfg url host ≡ ok v
      → IsSafe cfg v
  unfolding validate_host
  validate_host_sound url host v web there h =
      elim (Option-cases (lookup_host host (unwrap_or url.port_or_known_default 443))) [
        | inl missing ↦ elim (Bool-cases (is_empty cfg.allowlist)) [
          | inl none_listed ↦ grind (arith, missing, none_listed, h)
          | inr listed ↦ elim (Bool-cases (host_matches_allowlist host cfg.allowlist)) [
            | inl on_list ↦ grind (arith, missing, listed, on_list, h)
            | inr off_list ↦ grind (arith, missing, listed, off_list, h)
          ]
        ]
        | inr (addrs, found) ↦ elim (Bool-cases (is_empty cfg.allowlist)) [
          | inl none_listed ↦
              validate_addresses-IsSafe cfg false url host addrs v web there (rw none_listed refl)
                (rw none_listed refl) (grind (arith, found, none_listed, h))
          | inr listed ↦ elim (Bool-cases (host_matches_allowlist host cfg.allowlist)) [
            | inl on_list ↦
                validate_addresses-IsSafe cfg true url host addrs v web there
                  (rw (listed, on_list) refl) (rw (listed, on_list) refl)
                  (grind (arith, found, listed, on_list, h))
            | inr off_list ↦ grind (arith, found, listed, off_list, h)
          ]
        ]
      ]

  -- A URL that `validate` accepts has a web scheme and a host, the result lists an address, the host
  -- is on the allow list if there is one, and otherwise every listed address is allowed by the policy.
  pub validate_sound :
      (url_str : Text) (v : ValidateOk)
      → validate parse lookup_host cfg url_str ≡ ok v
      → IsSafe cfg v
  unfolding validate
  validate_sound url_str v h = elim (Option-cases (parse url_str)) [
    | inl bad ↦ grind (arith, bad, h)
    | inr (url, parsed) ↦ elim (Bool-cases (is_web url.scheme_of)) [
      | inr other ↦ grind (arith, parsed, other, h)
      | inl web ↦ elim (Option-cases url.host_str) [
        | inl missing ↦ grind (arith, parsed, web, missing, h)
        | inr (host, there) ↦
            validate_host_sound url host v web there (grind (arith, parsed, web, there, h))
      ]
    ]
  ]

-- the bytes of a buffer and the chunks after it
abbrev pub joined : List ℕ → List (List ℕ) → List ℕ
joined buf [] = buf
joined buf (c ∷ cs) = joined (buf ++ c) cs

length-joined : (buf : List ℕ) (cs : List (List ℕ)) → length buf ≤ length (joined buf cs)
length-joined buf [] = omega arith
length-joined buf (c ∷ cs) = omega (arith, length-joined (buf ++ c) cs, length-append buf c)

-- A body whose chunks all arrive is returned in full if it fits the budget, and is refused
-- otherwise.
pub read_body-joined :
    (budget : ℕ) (buf : List ℕ) (cs : List (List ℕ))
    → length buf ≤ budget
    → read_body budget buf (map some cs) ≡ (
        if leb (length (joined buf cs)) budget
        then ok (joined buf cs)
        else err (response_exceeded budget))
unfolding read_body
read_body-joined budget buf [] h = ground arith
read_body-joined budget buf (c ∷ cs) h = elim (Bool-cases (ltb budget (length buf + length c))) [
  | inl over ↦ ground (arith, over, length-joined (buf ++ c) cs, length-append buf c)
  | inr fits ↦
      let small = length-append buf c in
      ground (arith, fits, read_body-joined budget (buf ++ c) cs (ground (arith, small, fits)))
]
