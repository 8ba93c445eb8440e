-- ===== src/Agents/Egress/Ranges.antt =====
-- The policy as the ranges of addresses that it blocks.
use nagent.Prelude.{
  ℕ, ◌+◌, ◌*◌, ◌/◌, ◌%◌, ◌≤◌, ◌<◌, ◌≡◌, refl, Bool, true, not, leb, ◌==◌, ◌&&◌, List, [], ◌∷◌, any,
  arith,
}
use nagent.Net.{v4, v6, is_loopback}
use nagent.Agents.Egress.{is_addr_allowed, is_v4_allowed, is_v6_allowed}

-- an IPv4 address as the number that its octets write
abbrev pub address : ℕ → ℕ → ℕ → ℕ → ℕ
address a b c d = ((a * 256 + b) * 256 + c) * 256 + d

abbrev pub in_range : ℕ → ℕ × ℕ → Bool
in_range n r = leb r.0 n && leb n r.1

-- the first and the last address of 0/8, 10/8, 100.64/10, 127/8, 169.254/16, 172.16/12, 192.168/16,
-- 224/4 and of the broadcast address
abbrev pub blocked : List (ℕ × ℕ)
blocked =
    (address 0 0 0 0, address 0 255 255 255)
    ∷ (address 10 0 0 0, address 10 255 255 255)
    ∷ (address 100 64 0 0, address 100 127 255 255)
    ∷ (address 127 0 0 0, address 127 255 255 255)
    ∷ (address 169 254 0 0, address 169 254 255 255)
    ∷ (address 172 16 0 0, address 172 31 255 255)
    ∷ (address 192 168 0 0, address 192 168 255 255)
    ∷ (address 224 0 0 0, address 239 255 255 255)
    ∷ (address 255 255 255 255, address 255 255 255 255)
    ∷ []

module _ (a b c d : ℕ) (ha : a < 256) (hb : b < 256) (hc : c < 256) (hd : d < 256) where
  net :
      (x : ℕ)
      → x < 256
      → in_range (address a b c d) (address x 0 0 0, address x 255 255 255) ≡ (a == x)
  net x hx = ground arith

  subnet :
      (x lo hi : ℕ)
      → x < 256
      → lo < 256
      → hi < 256
      → in_range (address a b c d) (address x lo 0 0, address x hi 255 255)
        ≡ (a == x && (leb lo b && leb b hi))
  subnet x lo hi hx hlo hhi = ground arith

  multicast :
      in_range (address a b c d) (address 224 0 0 0, address 239 255 255 255)
      ≡ (leb 224 a && leb a 239)
  multicast = ground arith

  broadcast :
      in_range (address a b c d) (address 255 255 255 255, address 255 255 255 255)
      ≡ (a == 255 && b == 255 && c == 255 && d == 255)
  broadcast = ground arith

-- the policy and the ranges
in_ranges :
    (a b c d : ℕ) (allow_public : Bool)
    → a < 256
    → b < 256
    → c < 256
    → d < 256
    → is_addr_allowed (v4 a b c d) allow_public
      ≡ (allow_public && not (any (in_range (address a b c d)) blocked))
unfolding is_addr_allowed is_v4_allowed is_loopback
in_ranges a b c d p ha hb hc hd =
    let net_of = net a b c d ha hb hc hd in
    let subnet_of = subnet a b c d ha hb hc hd in
    rw
      (
        net_of 0 (omega arith),
        net_of 10 (omega arith),
        net_of 127 (omega arith),
        subnet_of 100 64 127 (omega arith) (omega arith) (omega arith),
        subnet_of 169 254 254 (omega arith) (omega arith) (omega arith),
        subnet_of 172 16 31 (omega arith) (omega arith) (omega arith),
        subnet_of 192 168 168 (omega arith) (omega arith) (omega arith),
        multicast a b c d ha hb hc hd,
        broadcast a b c d ha hb hc hd,
      )
      (ground arith)

-- Where public addresses are allowed, an IPv4 address below the reserved 240.0.0.0/4 is allowed
-- exactly if it lies in none of the blocked ranges.
pub is_addr_allowed-v4 :
    (a b c d : ℕ)
    → a < 240
    → b < 256
    → c < 256
    → d < 256
    → is_addr_allowed (v4 a b c d) true ≡ not (any (in_range (address a b c d)) blocked)
is_addr_allowed-v4 a b c d ha hb hc hd = in_ranges a b c d true (omega arith) hb hc hd

high : (a b : ℕ) → b < 256 → (a * 256 + b) / 256 ≡ a
high a b h = grind arith

low : (a b : ℕ) → b < 256 → (a * 256 + b) % 256 ≡ b
low a b h = grind arith

-- An IPv4-mapped IPv6 address is allowed exactly if the IPv4 address is.
pub is_addr_allowed-mapped :
    (a b c d : ℕ) (allow_public : Bool)
    → a < 256
    → b < 256
    → c < 256
    → d < 256
    → is_addr_allowed (v6 0 0 0 0 0 0xffff (a * 256 + b) (c * 256 + d)) allow_public
      ≡ is_addr_allowed (v4 a b c d) allow_public
unfolding is_addr_allowed is_v6_allowed is_loopback
is_addr_allowed-mapped a b c d p ha hb hc hd =
    rw (high a b hb, low a b hb, high c d hd, low c d hd) refl

-- Where public addresses are allowed, so are those of fe81::/16 to febf::/16, which belong to the
-- link-local range fe80::/10.
pub link_local-allowed :
    (a b c d e f g h : ℕ)
    → 0xfe80 < a
    → a ≤ 0xfebf
    → is_addr_allowed (v6 a b c d e f g h) true ≡ true
unfolding is_addr_allowed is_v6_allowed is_loopback
link_local-allowed a b c d e f g h lo hi = ground arith
