-- ===== src/Agents/Egress.antt =====
-- crates/nagent-agents/src/egress.rs: the policy on the addresses that a tool may connect to.
pub mod Ranges
pub mod Fetch
mod Tests
use nagent.Prelude.{
  ℕ, ◌+◌, ◌*◌, ◌/◌, ◌%◌, ◌^◌, Bool, true, false, Option, none, some, leb, ◌==◌, ◌&&◌, ◌||◌,
  if◌then◌else◌,
}
use nagent.Net.{IpAddr, v4, v6, is_loopback}

-- `Ipv4Addr::is_link_local`
abbrev pub is_link_local : ℕ → ℕ → Bool
is_link_local a b = a == 169 && b == 254

-- `Ipv4Addr::is_private`
abbrev pub is_private : ℕ → ℕ → Bool
is_private a b = a == 10 || (a == 172 && (leb 16 b && leb b 31)) || (a == 192 && b == 168)

-- `Ipv4Addr::is_multicast`
abbrev pub is_multicast : ℕ → Bool
is_multicast a = leb 224 a && leb a 239

abbrev pub is_linkback_compat : Bool
is_linkback_compat = false

unfoldable pub is_v4_allowed : ℕ → ℕ → ℕ → ℕ → Bool → Bool
is_v4_allowed a b c d allow_public =
    if is_loopback (v4 a b c d) || is_linkback_compat || is_link_local a b
    then false
    else if a == 169 && b == 254
    then false
    else if a == 0
    then false
    else if a == 100 && (leb 64 b && leb b 127)
    then false
    else if is_private a b
    then false
    else if is_multicast a
        || (a == 255 && b == 255 && c == 255 && d == 255)
        || (a == 0 && b == 0 && c == 0 && d == 0)
    then false
    else allow_public

-- a segment with its `n` lowest bits cleared: `& 0xfe00` for nine, `& 0xff00` for eight
abbrev pub clear_low : ℕ → ℕ → ℕ
clear_low n segment = segment / 2 ^ n * 2 ^ n

unfoldable pub is_v6_allowed : ℕ → ℕ → ℕ → ℕ → ℕ → ℕ → ℕ → ℕ → Bool → Bool
is_v6_allowed a b c d e f g h allow_public =
    if is_loopback (v6 a b c d e f g h)
      || (a == 0 && b == 0 && c == 0 && d == 0 && e == 0 && f == 0 && g == 0 && h == 0)
    then false
    else if a == 0xfe80
    then false
    else if clear_low 9 a == 0xfc00
    then false
    else if clear_low 8 a == 0xff00
    then false
    else if a == 0 && b == 0 && c == 0 && d == 0 && e == 0 && f == 0xffff
    then is_v4_allowed (g / 256) (g % 256) (h / 256) (h % 256) allow_public
    else allow_public

unfoldable pub is_addr_allowed : IpAddr → Bool → Bool
is_addr_allowed (v4 a b c d) allow_public = is_v4_allowed a b c d allow_public
is_addr_allowed (v6 a b c d e f g h) allow_public = is_v6_allowed a b c d e f g h allow_public
