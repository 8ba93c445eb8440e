-- ===== src/Agents/Egress/Tests.antt =====
-- Addresses at the borders of the ranges.
use nagent.Prelude.{◌≡◌, true, not, any, arith}
use nagent.Net.{v4, v6}
use nagent.Agents.Egress.{is_addr_allowed}
use nagent.Agents.Egress.Ranges.{address, in_range, blocked, is_addr_allowed-v4, link_local-allowed}

is_addr_allowed-v4_example :
    is_addr_allowed (v4 172 32 0 1) true ≡ not (any (in_range (address 172 32 0 1)) blocked)
is_addr_allowed-v4_example =
    is_addr_allowed-v4 172 32 0 1 (omega arith) (omega arith) (omega arith) (omega arith)

link_local-allowed_example : is_addr_allowed (v6 0xfe90 0 0 0 0 0 0 1) true ≡ true
link_local-allowed_example = link_local-allowed 0xfe90 0 0 0 0 0 0 1 (omega arith) (omega arith)
