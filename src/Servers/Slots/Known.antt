-- ===== src/Servers/Slots/Known.antt =====
-- src/servers.c: every server in use is found at its address.
use dpmaster_x.Prelude.{
  ℕ, zero, suc, ◌≤◌, ◌<◌, ◌≡◌, refl, ◌∙◌, inl, inr, true, false, some, List, [], ◌∷◌, arith, length,
  Bool-cases,
}
use dpmaster_x.Address.{
  Address, ipv4, ipv6, same_family, is_same_address, same_ipv4_addr, same_ipv6_addr,
}
use dpmaster_x.Users.Links.{mem, erase, Distinct, Distinct-erase}
use dpmaster_x.Users.Chains.{erase-mem}
use dpmaster_x.Servers.{Servers, server_at}
use dpmaster_x.Servers.Lookup.{get_by_addr_internal}
use dpmaster_x.Servers.Slots.{IsWellFormed, IsCalmFrom, is_unused_at, used-lt}
use dpmaster_x.Servers.Slots.Finds.{is_server_of, first_of, get_by_addr_internal-first_of}
use dpmaster_x.Servers.Slots.Indexed.{IsIndexed, hash_at, mem-erase_self}

-- An address is the same as itself.
is_same_address_refl : (a : Address) → (is_same_address a a).0 ≡ true
unfolding is_same_address same_ipv4_addr same_ipv6_addr
is_same_address_refl (ipv4 a) = ground arith
is_same_address_refl (ipv6 a) = ground arith

same_family_refl : (a : Address) → same_family a a ≡ true
same_family_refl (ipv4 a) = refl
same_family_refl (ipv6 a) = refl

-- Distinct numbers below a bound are at most as many.
length-erase : (i : ℕ) (xs : List ℕ) → length xs ≤ suc (length (erase i xs))
length-erase i [] = omega arith
length-erase i (x ∷ xs) = ground (arith, length-erase i xs)

length-Distinct :
    (n : ℕ) (xs : List ℕ) → Distinct xs → ((i : ℕ) → mem i xs ≡ true → i < n) → length xs ≤ n
length-Distinct zero [] d b = omega arith
length-Distinct zero (x ∷ xs) d b = absurd (ground (arith, b x))
length-Distinct (suc n) xs d b = omega (
  arith,
  length-erase n xs,
  length-Distinct n (erase n xs) (Distinct-erase n xs d)
      (λ i m. ground (arith, b i, erase-mem n i xs m, mem-erase_self n xs d, m)),
)

first_of-member :
    (s : Servers) (address : Address) (i : ℕ) (xs : List ℕ)
    → mem i xs ≡ true
    → is_server_of s address i ≡ true
    → (j : ℕ) × (first_of s address xs ≡ some j) × (is_server_of s address j ≡ true)
unfolding first_of
first_of-member s address i [] m e = cc
first_of-member s address i (x ∷ xs) m e = elim (Bool-cases (is_server_of s address x)) [
  | inl found ↦ (x, rw (found) refl, found)
  | inr other ↦
      let (j, f, g) = first_of-member s address i xs (ground (arith, m, e, other)) e in
      (j, rw (other) f, g)
]

-- On a well-formed list in which no server has timed out, and whose hash chains hold exactly the
-- servers in use, each at the hash of its address, Sv_GetByAddr_Internal finds, for the address
-- of every server in use, a server in use that has that address.
pub get_by_addr_internal-used :
    (s : Servers) (crt_time i : ℕ) (chains : ℕ → List ℕ)
    → IsWellFormed s
    → IsCalmFrom s 0 crt_time
    → IsIndexed s chains
    → is_unused_at s.servers i ≡ false
    → let address = (server_at s i).address in
      (j : ℕ) × ((get_by_addr_internal s address crt_time).server ≡ some j)
      × (is_server_of s address j ≡ true)
unfolding is_server_of
get_by_addr_internal-used s crt_time i chains w calm x used =
    let address = (server_at s i).address in
    let short : length (chains (hash_at s i)) ≤ s.max_nb_servers =
      length-Distinct s.max_nb_servers (chains (hash_at s i)) (x.table.distinct (hash_at s i))
        (λ j m. omega (arith, used-lt s.servers j (x.within (hash_at s i) j m).0, w.size)) in
    let (j, f, g) =
      first_of-member s address i (chains (hash_at s i)) (x.filed i used)
        (rw (used, same_family_refl address, is_same_address_refl address) refl) in
    (j, get_by_addr_internal-first_of s address crt_time chains x.table short calm ∙ f, g)
