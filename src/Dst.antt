-- ===== src/Dst.antt =====
-- src/glb_dst.h: a destination and its weight.
use glb.Common.{Bool}
use glb.SockAddr.{SockAddr, sockaddr_is_equal, sockaddr_set_port}
use glb.Common.{ℕ}

-- weight > 0: share of the connections; 0: no new connections; < 0: discard the destination
pub record Dst (F : Type 0) : Type 0 where
  pub addr : SockAddr
  pub weight : F

module _ {F : Type 0} where
  unfoldable dst_set_port : Dst F → ℕ → Dst F
  dst_set_port dst port = record dst { addr = sockaddr_set_port dst.addr port }

  unfoldable dst_set_weight : Dst F → F → Dst F
  dst_set_weight dst weight = record dst { weight = weight }

  unfoldable pub dst_is_equal : Dst F → Dst F → Bool
  dst_is_equal d1 d2 = sockaddr_is_equal d1.addr d2.addr
