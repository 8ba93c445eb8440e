-- ===== src/Net.antt =====
-- `std::net::IpAddr`, as far as the program looks into it.
use native.Mathlib.Decide.{ℕ_discrete}
use nagent.Prelude.{ℕ, Bool, ◌&&◌, ◌==◌}

pub data IpAddr : Type 0 where
  -- four octets
  v4 : ℕ → ℕ → ℕ → ℕ → IpAddr
  -- eight segments
  v6 : ℕ → ℕ → ℕ → ℕ → ℕ → ℕ → ℕ → ℕ → IpAddr

-- 127.0.0.0/8, and ::1
unfoldable pub is_loopback : IpAddr → Bool
is_loopback (v4 a b c d) = a == 127
is_loopback (v6 a b c d e f g h) =
    a == 0 && b == 0 && c == 0 && d == 0 && e == 0 && f == 0 && g == 0 && h == 1

unfoldable pub IpAddr-discrete : Discrete IpAddr
unfolding ℕ_discrete
IpAddr-discrete = hlevel ℕ_discrete
