-- ===== src/SockAddr.antt =====
-- src/glb_socket.h and src/glb_socket.c: IPv4 socket addresses (`struct sockaddr_in`) on a
-- little-endian host.
use Prim.Native.Nat.{bit_or, bit_xor}
use glb.Common.{
  ℕ, ◌+◌, ◌-◌, ◌*◌, ◌/◌, ◌%◌, ◌^◌, ◌<◌, ◌≡◌, ◌↔◌, Bool, true, ◌&&◌, List, [], ◌∷◌, arith, ◌==◌,
}
pub mod Text

-- `sin_port` and `sin_addr` hold bytes in network order, read as the host reads them; `sin_zero` is
-- the padding, which `memcmp` compares too.
pub record SockAddr : Type 0 where
  pub sin_family : ℕ
  pub sin_port : ℕ
  pub sin_addr : ℕ
  pub sin_zero : ℕ

abbrev af_inet : ℕ
af_inet = 2

-- `memcmp` of the whole structures
unfoldable pub sockaddr_is_equal : SockAddr → SockAddr → Bool
sockaddr_is_equal left right =
    left.sin_family == right.sin_family
    && (left.sin_port == right.sin_port
        && (left.sin_addr == right.sin_addr && left.sin_zero == right.sin_zero))

-- `htons`, and `ntohs`: the two bytes of a 16-bit word change places.
unfoldable pub htons : ℕ → ℕ
htons p = p % 256 * 256 + p / 256 % 256

unfoldable pub sockaddr_set_port : SockAddr → ℕ → SockAddr
unfolding htons
sockaddr_set_port addr port = record addr { sin_port = htons port }

-- The `short` that comes back is read as a `uint16_t` by every caller.
unfoldable pub sockaddr_get_port : SockAddr → ℕ
unfolding htons
sockaddr_get_port addr = htons addr.sin_port

-- The address with what `gethostbyname` found, and a zeroed padding.
unfoldable pub sockaddr_of_host : ℕ → ℕ → SockAddr
unfolding htons
sockaddr_of_host host port = record {
  sin_family = af_inet;
  sin_port = htons port;
  sin_addr = host;
  sin_zero = 0;
}

pub sockaddr_is_equal_iff : (a b : SockAddr) → (sockaddr_is_equal a b ≡ true) ↔ (a ≡ b)
unfolding sockaddr_is_equal
sockaddr_is_equal_iff a b = ground arith

-- A 16-bit port that is set is the port that is read back, and the host stays.
pub get_port-set_port :
    (a : SockAddr) (port : ℕ)
    → port < 2 ^ 16
    → (sockaddr_get_port (sockaddr_set_port a port) ≡ port)
      × ((sockaddr_set_port a port).sin_addr ≡ a.sin_addr)
unfolding sockaddr_get_port sockaddr_set_port htons
get_port-set_port a port h = ground arith

-- The bytes of a word in memory.
abbrev pub bytes_of : ℕ → List ℕ
bytes_of w = w % 256 ∷ w / 256 % 256 ∷ w / 65536 % 256 ∷ w / 16777216 % 256 ∷ []

abbrev fnv32_seed : ℕ
fnv32_seed = 2166136261

abbrev fnv32_prime : ℕ
fnv32_prime = 16777619

abbrev rotl32 : ℕ → ℕ → ℕ
rotl32 x r = bit_or (x * 2 ^ r % 2 ^ 32) (x / 2 ^ (32 - r))

unfoldable fnv32a : ℕ → List ℕ → ℕ
fnv32a ret [] = ret
fnv32a ret (b ∷ bs) = fnv32a (bit_xor ret b * fnv32_prime % 2 ^ 32) bs

unfoldable fnv32a_mix : List ℕ → ℕ
unfolding fnv32a
fnv32a_mix buf =
    let ret = fnv32a fnv32_seed buf in
    let mixed = ret * rotl32 ret 24 % 2 ^ 32 in bit_xor mixed (rotl32 mixed 21)

-- The hint of a client: only its IP address counts.
unfoldable pub sockaddr_hash : SockAddr → ℕ
unfolding fnv32a_mix
sockaddr_hash addr = fnv32a_mix (bytes_of addr.sin_addr)
