-- ===== src/Address.antt =====
-- Peer addresses, and the address functions of src/common.c.
-- Numbers are read as a little-endian machine reads them: `s_addr` and the ports are the native
-- integers that the network-order bytes make, and `s6_addr` is four native 32-bit words.
pub mod Hash
use dpmaster_x.Prelude.{
  ℕ, ◌+◌, ◌*◌, ◌/◌, ◌%◌, ◌^◌, bit_xor, Bool, true, false, ◌&&◌, ◌==◌, if◌then◌else◌,
}

-- `struct sockaddr_in`
pub record Inet : Type 0 where
  pub s_addr : ℕ
  pub sin_port : ℕ

-- `struct sockaddr_in6`; `w0` to `w3` are the words of `sin6_addr`.
pub record Inet6 : Type 0 where
  pub w0 : ℕ
  pub w1 : ℕ
  pub w2 : ℕ
  pub w3 : ℕ
  pub sin6_port : ℕ
  pub sin6_scope_id : ℕ
  pub sin6_flowinfo : ℕ

-- `struct sockaddr_storage`, whose family is that of its constructor. Packets from any other
-- family are rejected before they are handled.
pub data Address : Type 0 where
  ipv4 : Inet → Address
  ipv6 : Inet6 → Address

abbrev pub is_ipv4 : Address → Bool
is_ipv4 (ipv4 a) = true
is_ipv4 (ipv6 a) = false

abbrev pub same_family : Address → Address → Bool
same_family (ipv4 a) (ipv4 b) = true
same_family (ipv6 a) (ipv6 b) = true
same_family _ _ = false

abbrev pub ntohs : ℕ → ℕ
ntohs p = p % 2 ^ 8 * 2 ^ 8 + p / 2 ^ 8 % 2 ^ 8

abbrev pub ntohl : ℕ → ℕ
ntohl a =
    a % 2 ^ 8 * 2 ^ 24
    + a / 2 ^ 8 % 2 ^ 8 * 2 ^ 16
    + a / 2 ^ 16 % 2 ^ 8 * 2 ^ 8
    + a / 2 ^ 24 % 2 ^ 8

-- Sys_GetSockaddrPort
abbrev pub port_of : Address → ℕ
port_of (ipv4 a) = ntohs a.sin_port
port_of (ipv6 a) = ntohs a.sin6_port

-- The hash before its bits are merged.
raw_hash : Bool → Address → ℕ
raw_hash hash_ports (ipv6 a) =
    let hash = bit_xor a.w0 a.w1 in if hash_ports then bit_xor hash a.sin6_port else hash
raw_hash hash_ports (ipv4 a) = if hash_ports then bit_xor a.s_addr a.sin_port else a.s_addr

-- `(hash & 0xFFFF) ^ (hash >> 16)`, then `(hash ^ (hash >> hash_size)) & ((1 << hash_size) - 1)`
merge_bits : ℕ → ℕ → ℕ
merge_bits hash hash_size =
    let hash = bit_xor (hash % 2 ^ 16) (hash / 2 ^ 16) in
    bit_xor hash (hash / 2 ^ hash_size) % 2 ^ hash_size

-- Com_AddressHash
unfoldable pub address_hash : Bool → Address → ℕ → ℕ
unfolding raw_hash merge_bits
address_hash hash_ports address hash_size = merge_bits (raw_hash hash_ports address) hash_size

-- Com_SameIPv4Addr: the result, and what is written to `same_public_address`.
unfoldable pub same_ipv4_addr : Inet → Inet → Bool × Bool
same_ipv4_addr a b =
    if a.s_addr == b.s_addr then (a.sin_port == b.sin_port, true) else (false, false)

-- Com_SameIPv6Addr
unfoldable pub same_ipv6_addr : Inet6 → Inet6 → Bool × Bool
same_ipv6_addr a b =
    if a.w0 == b.w0 && a.w1 == b.w1
    then (
      a.sin6_scope_id == b.sin6_scope_id
          && a.sin6_port == b.sin6_port
          && (a.w2 == b.w2 && a.w3 == b.w3),
      true,
    )
    else (false, false)

-- The call through `IsSameAddress`, which the callers make only within one family.
unfoldable pub is_same_address : Address → Address → Bool × Bool
unfolding same_ipv4_addr same_ipv6_addr
is_same_address (ipv4 a) (ipv4 b) = same_ipv4_addr a b
is_same_address (ipv6 a) (ipv6 b) = same_ipv6_addr a b
is_same_address _ _ = (false, false)
