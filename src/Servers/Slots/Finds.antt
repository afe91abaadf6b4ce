-- ===== src/Servers/Slots/Finds.antt =====
-- src/servers.c: Sv_GetByAddr_Internal against a search in the list that a chain represents.
use dpmaster_x.Prelude.{
  ℕ, zero, suc, ◌+◌, ◌≤◌, ◌≡◌, refl, sym, ap, ◌∙◌, Bool, not, ◌&&◌, Option, none, some, List, [],
  ◌∷◌, arith, length, if◌then◌else◌, Index, Bool-cases, inl, inr, subst,
}
use dpmaster_x.Address.{Address, address_hash, same_family, is_same_address}
use dpmaster_x.Users.Links.{Seg, IsTable}
use dpmaster_x.Servers.{Servers, server_at, is_active}
use dpmaster_x.Servers.Lookup.{Found, move_on_top, search_chain, get_by_addr_internal}
use dpmaster_x.Servers.Slots.{IsCalmFrom, is_active_calm, is_unused_at}

-- A server in use with the same address.
unfoldable pub is_server_of : Servers → Address → ℕ → Bool
is_server_of s address i =
    not (is_unused_at s.servers i)
    && same_family address (server_at s i).address
    && (is_same_address (server_at s i).address address).0

-- The first one of a list.
unfoldable pub first_of : Servers → Address → List ℕ → Option ℕ
first_of s address [] = none
first_of s address (i ∷ is) = if is_server_of s address i then some i else first_of s address is

-- A round of the search at a server.
unfoldable pub round_at : Servers × Bool → Servers → Address → ℕ → ℕ → ℕ → ℕ → ℕ → Found
round_at active s address hash crt_time rounds i count =
    let comparable = active.1 && same_family address (server_at s i).address in
    let same = is_same_address (server_at s i).address address in
    let count' = if comparable && same.1 then count + 1 else count in
    if comparable && same.0
    then record {
      after = move_on_top active.0 i hash;
      server = some i;
      same_address_found = count';
    }
    else search_chain active.0 address hash crt_time rounds (s.users.next i) count'

pub search_chain-round :
    (s : Servers) (address : Address) (hash crt_time rounds i count : ℕ) (active : Servers × Bool)
    → is_active s i crt_time ≡ active
    → search_chain s address hash crt_time (suc rounds) (some i) count
      ≡ round_at active s address hash crt_time rounds i count
unfolding search_chain round_at
search_chain-round s address hash crt_time rounds i count active e =
    subst
      (λ active.
        search_chain s address hash crt_time (suc rounds) (some i) count
        ≡ round_at active s address hash crt_time rounds i count)
      e refl

-- In a round where the server stays.
round_at-first :
    (s : Servers) (address : Address) (hash crt_time rounds i count : ℕ) (rest : Option ℕ)
    → ((count : ℕ)
        → (search_chain s address hash crt_time rounds (s.users.next i) count).server ≡ rest)
    → (round_at (s, not (is_unused_at s.servers i)) s address hash crt_time rounds i count).server
      ≡ (if is_server_of s address i then some i else rest)
unfolding round_at is_server_of
round_at-first s address hash crt_time rounds i count rest later =
    elim (Bool-cases (
      not (is_unused_at s.servers i)
      && same_family address (server_at s i).address
      && (is_same_address (server_at s i).address address).0)) [
        | inl found ↦ rw (found) refl
        | inr other ↦ rw (other) (later _)
      ]

search_chain-first_of :
    (s : Servers) (address : Address) (hash crt_time rounds : ℕ) (chain : List ℕ) (first : Index)
    (count : ℕ)
    → IsCalmFrom s 0 crt_time
    → Seg s.users.next chain first
    → length chain ≤ rounds
    → (search_chain s address hash crt_time rounds first count).server ≡ first_of s address chain
unfolding search_chain first_of
search_chain-first_of s address hash crt_time rounds [] none count calm seg h = refl
search_chain-first_of s address hash crt_time rounds [] (some j) count calm seg h = cc
search_chain-first_of s address hash crt_time rounds (i ∷ is) none count calm seg h = cc
search_chain-first_of s address hash crt_time zero (i ∷ is) (some j) count calm seg h =
    absurd (omega arith)
search_chain-first_of s address hash crt_time (suc rounds) (i ∷ is) (some j) count calm (here, seg)
      h =
    subst
      (λ j.
        (search_chain s address hash crt_time (suc rounds) (some j) count).server
        ≡ first_of s address (i ∷ is))
      (sym same)
      (ap (λ (r : Found). r.server)
          (search_chain-round s address hash crt_time rounds i count
            (s, not (is_unused_at s.servers i)) (is_active_calm s 0 i crt_time calm (omega arith)))
        ∙ round_at-first s address hash crt_time rounds i count (first_of s address is) (λ count.
          search_chain-first_of s address hash crt_time rounds is (s.users.next i) count calm seg
            (omega arith)))
  where
    same : j ≡ i
    same = ground (arith, here)

-- If the links of the server hash table represent chains, the chain of the address has at most
-- max_nb_servers servers, and no server has timed out, then Sv_GetByAddr_Internal finds the
-- first server of that chain that is in use and has the same address, and none if there is none.
pub get_by_addr_internal-first_of :
    (s : Servers) (address : Address) (crt_time : ℕ) (chains : ℕ → List ℕ)
    → IsTable s.users chains
    → length (chains (address_hash s.hash_ports address s.sv_hash_size)) ≤ s.max_nb_servers
    → IsCalmFrom s 0 crt_time
    → (get_by_addr_internal s address crt_time).server
      ≡ first_of s address (chains (address_hash s.hash_ports address s.sv_hash_size))
unfolding get_by_addr_internal
get_by_addr_internal-first_of s address crt_time chains t h calm =
    let hash = address_hash s.hash_ports address s.sv_hash_size in
    search_chain-first_of s address hash crt_time s.max_nb_servers (chains hash)
      (s.users.entries hash) 0 calm (t.seg hash) h
