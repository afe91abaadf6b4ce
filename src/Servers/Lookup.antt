-- ===== src/Servers/Lookup.antt =====
-- src/servers.c: Sv_GetByAddr and its search.
use dpmaster_x.Prelude.{
  pos, ℕ, zero, suc, ◌+◌, ◌/◌, ◌%◌, ◌^◌, Bool, not, ◌&&◌, Option, none, some, ltb, leb, ◌==◌,
  if◌then◌else◌, set, Index, end_of, is_some,
}
use dpmaster_x.Address.{Address, ipv4, ipv6, same_family, ntohl, address_hash, is_same_address}
use dpmaster_x.Users.{Users}
use dpmaster_x.Users
use dpmaster_x.Servers.{
  Servers, Server, AddressMapping, server_at, cleared, is_active, check_timeouts, uninitialized,
  timeout_heartbeat,
}
use dpmaster_x.Servers.Addrmap.{get_addrmap}

-- The state, the server found, and `*same_address_found`.
pub record Found : Type 0 where
  pub after : Servers
  pub server : Option ℕ
  pub same_address_found : ℕ

-- "Move it on top of the list"
unfoldable pub move_on_top : Servers → ℕ → ℕ → Servers
move_on_top s i hash = record s { users = Users.add (Users.remove s.users i) i hash }

-- The loop of Sv_GetByAddr_Internal. The next server is read before the current one can be
-- removed. Every round goes to another server of the chain, so `max_nb_servers` are enough.
unfoldable pub search_chain : Servers → Address → ℕ → ℕ → ℕ → Index → ℕ → Found
search_chain s address hash crt_time rounds none count = record {
  after = s;
  server = none;
  same_address_found = count;
}
search_chain s address hash crt_time zero (some i) count = record {
  after = s;
  server = none;
  same_address_found = count;
}
search_chain s address hash crt_time (suc rounds) (some i) count =
    let next_sv = s.users.next i in
    let active = is_active s i crt_time in
    let sv_address = (server_at s i).address in
    let comparable = active.1 && same_family address sv_address in
    let same = is_same_address sv_address address in
    let count' = if comparable && same.1 then count + 1 else count in
    let rest = search_chain active.0 address hash crt_time rounds next_sv count' in
    if comparable && same.0
    then record {
      after = move_on_top active.0 i hash;
      server = some i;
      same_address_found = count';
    }
    else rest

-- Sv_GetByAddr_Internal
unfoldable pub get_by_addr_internal : Servers → Address → ℕ → Found
unfolding search_chain
get_by_addr_internal s address crt_time =
    let hash = address_hash s.hash_ports address s.sv_hash_size in
    search_chain s address hash crt_time s.max_nb_servers (s.users.entries hash) 0

-- The first byte of an IPv4 address is 127, or the IPv6 address is ::1.
abbrev pub is_loopback : Address → Bool
is_loopback (ipv4 a) = ntohl a.s_addr / 2 ^ 24 == 127
is_loopback (ipv6 a) = a.w0 == 0 && a.w1 == 0 && (a.w2 == 0 && a.w3 == 2 ^ 24)

-- The address mapping of a new server, which is looked up only where loopback addresses are
-- not allowed, and only for IPv4.
abbrev pub mapping_for : Servers → Address → Option AddressMapping
mapping_for s (ipv4 a) = if s.allow_loopback then none else get_addrmap s.addrmaps a
mapping_for s (ipv6 a) = none

-- The loop of Sv_GetByAddr that looks for the next free entry; timed-out servers are removed.
unfoldable pub find_free : ℕ → Servers → ℕ → ℕ → Servers
find_free zero s ind crt_time = s
find_free (suc rounds) s ind crt_time =
    let active = is_active s ind crt_time in
    let rest = find_free rounds active.0 (suc ind) crt_time in
    if ltb ind s.max_nb_servers
    then (if active.1 then rest else record active.0 { first_free_slot = some ind })
    else s

-- The structure that the code initialises.
abbrev pub new_server : Servers → Address → ℕ → Server
new_server s address crt_time = record cleared {
  address = address;
  addrmap = mapping_for s address;
  timeout = pos (crt_time + timeout_heartbeat);
  state = uninitialized;
}

-- The end of Sv_GetByAddr, with the slot `i` that `first_free_slot` names. `memset` clears the
-- links too, which `add` writes at once.
unfoldable pub allocate : Servers → ℕ → Address → ℕ → Servers
allocate s i address crt_time =
    let raised = record s {
      last_used_slot = if ltb (end_of s.last_used_slot) (suc i) then some i else s.last_used_slot;
      first_free_slot = none;
    } in
    let found = find_free s.max_nb_servers raised (suc i) crt_time in
    let hash = address_hash s.hash_ports address s.sv_hash_size in
    record found {
      servers = set found.servers i (new_server s address crt_time);
      users = Users.add found.users i hash;
      nb_servers = (found.nb_servers + 1) % 2 ^ 32;
    }

-- The test of the quota of the address.
abbrev pub over_quota : Servers → ℕ → Bool
over_quota s nb_same_address = leb s.max_per_address nb_same_address && not (s.max_per_address == 0)

-- Adding a server that is not in the list. There is a free slot unless the list is full.
unfoldable pub add_server : Servers → Address → ℕ → ℕ → Servers × Option ℕ
unfolding allocate
add_server s address nb_same_address crt_time =
    if over_quota s nb_same_address
    then (s, none)
    else if not s.allow_loopback && (is_loopback address && not (is_some (mapping_for s address)))
    then (s, none)
    else (let s' = if s.nb_servers == s.max_nb_servers then check_timeouts s crt_time else s in
        if s'.nb_servers == s'.max_nb_servers then (s', none) else (elim s'.first_free_slot [
          | none ↦ (s', none)
          | some i ↦ (allocate s' i address crt_time, some i)
        ]))

-- Sv_GetByAddr
unfoldable pub get_by_addr : Servers → Address → Bool → ℕ → Servers × Option ℕ
unfolding get_by_addr_internal
get_by_addr s address add_it crt_time =
    let found = get_by_addr_internal s address crt_time in
    elim found.server [
      | some i ↦ (found.after, some i)
      | none ↦
          if add_it
          then add_server found.after address found.same_address_found crt_time
          else (found.after, none)
    ]
