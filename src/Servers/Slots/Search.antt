-- ===== src/Servers/Slots/Search.antt =====
-- src/servers.c: Sv_GetByAddr and the well-formedness of the list.
use dpmaster_x.Prelude.{
  ℕ, zero, suc, ◌+◌, ◌≡◌, sym, inl, inr, Bool, true, not, ◌&&◌, Option, none, some, arith, ◌==◌,
  if◌then◌else◌, Index, Bool-cases, Option-cases, subst, is_some,
}
use dpmaster_x.Address.{Address, address_hash, same_family, is_same_address}
use dpmaster_x.Users
use dpmaster_x.Servers.{Servers, server_at, is_active, check_timeouts}
use dpmaster_x.Servers.Lookup.{
  allocate, move_on_top, search_chain, get_by_addr_internal, add_server, get_by_addr, over_quota,
  Found, is_loopback, mapping_for,
}
use dpmaster_x.Servers.Slots.{
  IsWellFormed, IsCalmFrom, is_active_calm, is_active-IsWellFormed, check_timeouts-keeps,
}
use dpmaster_x.Servers.Slots.Allocate.{allocate-IsWellFormed}

pub is_active-calm :
    (s : Servers) (i crt_time : ℕ)
    → IsCalmFrom s 0 crt_time
    → IsCalmFrom (is_active s i crt_time).0 0 crt_time
is_active-calm s i crt_time calm =
    subst (λ r. IsCalmFrom r.0 0 crt_time) (sym (is_active_calm s 0 i crt_time calm (omega arith)))
      calm

-- A property that Sv_IsActive and a change of the chains keep is kept by the search.
pub search_chain-keeps :
    (P : Servers → Type 0) (crt_time : ℕ)
    → ((s : Servers) (i : ℕ) → P s → P (is_active s i crt_time).0)
    → ((s : Servers) (u : Users.Users) → P s → P (record s { users = u }))
    → (s : Servers) (address : Address) (hash rounds : ℕ) (first : Index) (count : ℕ) → P s
    → P (search_chain s address hash crt_time rounds first count).after
unfolding search_chain move_on_top
search_chain-keeps P crt_time keep relink s address hash rounds none count p = p
search_chain-keeps P crt_time keep relink s address hash zero (some i) count p = p
search_chain-keeps P crt_time keep relink s address hash (suc rounds) (some i) count p =
    let active = is_active s i crt_time in
    let sv_address = (server_at s i).address in
    let comparable = active.1 && same_family address sv_address in
    let same = is_same_address sv_address address in
    let p' = keep s i p in
    elim (Bool-cases (comparable && same.0)) [
      | inl found ↦
          rw (found, search_chain)
            (relink active.0 (Users.add (Users.remove active.0.users i) i hash) p')
      | inr other ↦
          rw (other, search_chain)
            (search_chain-keeps P crt_time keep relink active.0 address hash rounds (s.users.next i)
              (if comparable && same.1 then count + 1 else count) p')
    ]

pub with_users-IsWellFormed :
    (s : Servers) (u : Users.Users) → IsWellFormed s → IsWellFormed (record s { users = u })
with_users-IsWellFormed s u w = record {
  size = w.size;
  small = w.small;
  counted = w.counted;
  last = w.last;
  last_used = w.last_used;
  last_inside = w.last_inside;
  free = w.free;
  free_least = w.free_least;
}

add_server-IsWellFormed :
    (s : Servers) (address : Address) (count crt_time : ℕ)
    → IsWellFormed s
    → IsCalmFrom s 0 crt_time
    → IsWellFormed (add_server s address count crt_time).0
unfolding add_server
add_server-IsWellFormed s address count crt_time w calm = elim (Bool-cases (over_quota s count)) [
  | inl refused ↦ rw (refused, add_server) w
  | inr within ↦
      elim (Bool-cases
        (not s.allow_loopback && (is_loopback address && not (is_some (mapping_for s address))))) [
          | inl looped ↦ rw (within, looped, add_server) w
          | inr outside ↦
              rw (within, outside, add_server)
                (room now (kept IsWellFormed (λ s i. is_active-IsWellFormed s i crt_time) w)
                  (kept (λ s. IsCalmFrom s 0 crt_time) (λ s i. is_active-calm s i crt_time) calm))
        ]
]
  where
    now : Servers
    now = if s.nb_servers == s.max_nb_servers then check_timeouts s crt_time else s

    kept :
        (P : Servers → Type 0)
        → ((s : Servers) (i : ℕ) → P s → P (is_active s i crt_time).0)
        → P s
        → P now
    kept P keep p = elim (Bool-cases (s.nb_servers == s.max_nb_servers)) [
      | inl full ↦ rw (full) (check_timeouts-keeps P crt_time keep s p)
      | inr free ↦ rw (free) p
    ]

    placed : Servers → Servers × Option ℕ
    placed s = if s.nb_servers == s.max_nb_servers then (s, none) else (elim s.first_free_slot [
      | none ↦ (s, none)
      | some i ↦ (allocate s i address crt_time, some i)
    ])

    room : (s : Servers) → IsWellFormed s → IsCalmFrom s 0 crt_time → IsWellFormed (placed s).0
    room s w calm = elim (Bool-cases (s.nb_servers == s.max_nb_servers)) [
      | inl full ↦ rw (full) w
      | inr free ↦ elim (Option-cases s.first_free_slot) [
        | inl n ↦ rw (free, n) w
        | inr (i, e) ↦
            rw (free, e)
              (allocate-IsWellFormed s i address crt_time w e (λ j l. calm j (omega arith)))
      ]
    ]

-- Sv_GetByAddr keeps the server list well formed: the array has max_nb_servers slots, nb_servers
-- counts the used ones, last_used_slot is the last used slot, and first_free_slot is the lowest
-- free slot. If it may add a server, no server must have timed out at the time of the call.
pub get_by_addr-IsWellFormed :
    (s : Servers) (address : Address) (add_it : Bool) (crt_time : ℕ)
    → IsWellFormed s
    → (add_it ≡ true → IsCalmFrom s 0 crt_time)
    → IsWellFormed (get_by_addr s address add_it crt_time).0
unfolding get_by_addr get_by_addr_internal
get_by_addr-IsWellFormed s address add_it crt_time w calm = elim (Option-cases found.server) [
  | inr (i, e) ↦ rw (e, get_by_addr) w'
  | inl e ↦ elim (Bool-cases add_it) [
    | inl yes_add ↦
        rw (e, yes_add, get_by_addr)
          (add_server-IsWellFormed found.after address found.same_address_found crt_time w' (
            kept (λ s. IsCalmFrom s 0 crt_time) (λ s i. is_active-calm s i crt_time) (λ s u c. c)
              (calm yes_add)))
    | inr no_add ↦ rw (e, no_add, get_by_addr) w'
  ]
]
  where
    hash : ℕ
    hash = address_hash s.hash_ports address s.sv_hash_size

    found : Found
    found = get_by_addr_internal s address crt_time

    kept :
        (P : Servers → Type 0)
        → ((s : Servers) (i : ℕ) → P s → P (is_active s i crt_time).0)
        → ((s : Servers) (u : Users.Users) → P s → P (record s { users = u }))
        → P s
        → P found.after
    kept P keep relink =
        search_chain-keeps P crt_time keep relink s address hash s.max_nb_servers
          (s.users.entries hash) 0

    w' : IsWellFormed found.after
    w' = kept IsWellFormed (λ s i. is_active-IsWellFormed s i crt_time) with_users-IsWellFormed w
