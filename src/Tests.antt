-- ===== src/Tests.antt =====
-- The theorems on addresses at concrete values.
use glb.Common.{◌≡◌, refl, some, ◌++◌, length, ◌-◌}
use glb.SockAddr.{SockAddr, htons}
use glb.SockAddr.Text.{
  sockaddr_to_str, sockaddr_to_astr, ip_text, port_text, spaces, sockaddr_to_astr-aligned,
}
use glb.Config.{codes}
use glb.Backend.Command.{port_digits}

-- 127.0.0.1:80
abbrev local_addr : SockAddr
local_addr = record { sin_family = 2; sin_port = 20_480; sin_addr = 16_777_343; sin_zero = 0 }

sockaddr_to_astr-aligned_example :
    (sockaddr_to_str local_addr ≡ ip_text local_addr ++ port_text local_addr)
    × (sockaddr_to_astr local_addr
        ≡ some (
            spaces (15 - length (ip_text local_addr))
            ++ (sockaddr_to_str local_addr ++ spaces (6 - length (port_text local_addr)))))
sockaddr_to_astr-aligned_example = sockaddr_to_astr-aligned local_addr

local_addr_text : sockaddr_to_str local_addr ≡ codes "127.0.0.1:80"
unfolding sockaddr_to_str port_digits htons
local_addr_text = refl
