-- ===== src/Servers/Slots/Filed.antt =====
-- src/servers.c: Sv_GetByAddr keeps the chains of the hash table.
use dpmaster_x.Prelude.{
  ℕ, inl, inr, Bool, not, ◌&&◌, Option, none, some, ◌==◌, if◌then◌else◌, Bool-cases, Option-cases,
  is_some,
}
use dpmaster_x.Address.{Address, address_hash}
use dpmaster_x.Users.Links.{Seg-first}
use dpmaster_x.Servers.{Servers, is_active, check_timeouts}
use dpmaster_x.Servers.Lookup.{
  Found, allocate, add_server, get_by_addr, get_by_addr_internal, over_quota, is_loopback,
  mapping_for,
}
use dpmaster_x.Servers.Slots.{IsWellFormed, is_active-IsWellFormed, check_timeouts-keeps}
use dpmaster_x.Servers.Slots.Search.{search_chain-keeps, with_users-IsWellFormed}
use dpmaster_x.Servers.Slots.Indexed.{Indexed}
use dpmaster_x.Servers.Slots.Searched.{search_chain-Indexed, is_active-Indexed}
use dpmaster_x.Servers.Slots.Placed.{allocate-Indexed}

-- What the call keeps.
record IsKept (s : Servers) : Type 0 where
  well : IsWellFormed s
  indexed : Indexed s

is_active-IsKept : (s : Servers) (i crt_time : ℕ) → IsKept s → IsKept (is_active s i crt_time).0
is_active-IsKept s i crt_time k = record {
  well = is_active-IsWellFormed s i crt_time k.well;
  indexed = is_active-Indexed s i crt_time k.indexed;
}

add_server-Indexed :
    (s : Servers) (address : Address) (count crt_time : ℕ)
    → IsKept s
    → Indexed (add_server s address count crt_time).0
unfolding add_server
add_server-Indexed s address count crt_time k = elim (Bool-cases (over_quota s count)) [
  | inl refused ↦ rw (refused, add_server) k.indexed
  | inr within ↦
      elim (Bool-cases
        (not s.allow_loopback && (is_loopback address && not (is_some (mapping_for s address))))) [
          | inl looped ↦ rw (within, looped, add_server) k.indexed
          | inr outside ↦ rw (within, outside, add_server) (room current kept)
        ]
]
  where
    current : Servers
    current = if s.nb_servers == s.max_nb_servers then check_timeouts s crt_time else s

    kept : IsKept current
    kept = elim (Bool-cases (s.nb_servers == s.max_nb_servers)) [
      | inl full ↦
          rw (full)
            (check_timeouts-keeps IsKept crt_time (λ s i. is_active-IsKept s i crt_time) s k)
      | inr free ↦ rw (free) k
    ]

    placed : Servers → Servers × Option ℕ
    placed s = if s.nb_servers == s.max_nb_servers then (s, none) else (elim s.first_free_slot [
      | none ↦ (s, none)
      | some i ↦ (allocate s i address crt_time, some i)
    ])

    room : (s : Servers) → IsKept s → Indexed (placed s).0
    room s k = elim (Bool-cases (s.nb_servers == s.max_nb_servers)) [
      | inl full ↦ rw (full) k.indexed
      | inr free ↦ elim (Option-cases s.first_free_slot) [
        | inl n ↦ rw (free, n) k.indexed
        | inr (i, e) ↦ rw (free, e) (allocate-Indexed s i address crt_time k.well e k.indexed)
      ]
    ]

pub get_by_addr-Indexed :
    (s : Servers) (address : Address) (add_it : Bool) (crt_time : ℕ)
    → IsWellFormed s
    → Indexed s
    → Indexed (get_by_addr s address add_it crt_time).0
unfolding get_by_addr get_by_addr_internal
get_by_addr-Indexed s address add_it crt_time w (chains, x) = elim (Option-cases found.server) [
  | inr (i, e) ↦ rw (e, get_by_addr) indexed
  | inl e ↦ elim (Bool-cases add_it) [
    | inl yes_add ↦
        rw (e, yes_add, get_by_addr)
          (add_server-Indexed found.after address found.same_address_found crt_time
            (record { well = well; indexed = indexed }))
    | inr no_add ↦ rw (e, no_add, get_by_addr) indexed
  ]
]
  where
    hash : ℕ
    hash = address_hash s.hash_ports address s.sv_hash_size

    found : Found
    found = get_by_addr_internal s address crt_time

    well : IsWellFormed found.after
    well =
        search_chain-keeps IsWellFormed crt_time (λ s i. is_active-IsWellFormed s i crt_time)
          with_users-IsWellFormed s address hash s.max_nb_servers (s.users.entries hash) 0 w

    indexed : Indexed found.after
    indexed =
        search_chain-Indexed s address hash crt_time s.max_nb_servers (s.users.entries hash) 0
          chains x
          (λ i e.
            Seg-first s.users.next (chains hash) (s.users.entries hash) i (x.table.seg hash) e)
