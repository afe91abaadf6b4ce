-- ===== src/Address/Hash.antt =====
-- src/common.c: the hashes of equal addresses.
use dpmaster_x.Prelude.{ℕ, ◌≡◌, true, false, arith}
use dpmaster_x.Address.{
  Address, ipv4, ipv6, address_hash, same_ipv4_addr, same_ipv6_addr, is_same_address,
}

-- Without the option that hashes ports, Com_AddressHash gives two addresses the same hash if
-- they are found to have the same public address.
pub address_hash-same_public :
    (a b : Address) (hash_size : ℕ)
    → (is_same_address a b).1 ≡ true
    → address_hash false a hash_size ≡ address_hash false b hash_size
unfolding address_hash is_same_address same_ipv4_addr same_ipv6_addr
address_hash-same_public (ipv4 a) (ipv4 b) n h = let e : a.s_addr ≡ b.s_addr = ground arith in rw e
address_hash-same_public (ipv4 a) (ipv6 b) n h = cc
address_hash-same_public (ipv6 a) (ipv4 b) n h = cc
address_hash-same_public (ipv6 a) (ipv6 b) n h =
    let e : (a.w0 ≡ b.w0) × (a.w1 ≡ b.w1) = ground arith in rw (e.0, e.1)
