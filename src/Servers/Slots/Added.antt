-- ===== src/Servers/Slots/Added.antt =====
-- src/servers.c: Sv_GetByAddr where it may add a server: the server is in use, and none has timed
-- out afterwards.
use native.Mathlib.Decide.{ℕ_discrete}
use dpmaster_x.Prelude.{
  ltb_ℤ, pos, ℕ, suc, ◌<◌, ◌≡◌, refl, ap, inl, inr, true, false, not, ◌&&◌, Option, none, some,
  List, arith, length, set, get_or, ltb, ◌==◌, if◌then◌else◌, end_of, Bool-cases, Option-cases,
  OnSome, get_or-set_self, get_or-set_ne, is_some,
}
use dpmaster_x.Address.{Address, address_hash}
use dpmaster_x.Users.{Users}
use dpmaster_x.Servers.{Server, Servers, cleared, is_unused, check_timeouts, is_active}
use dpmaster_x.Servers.Lookup.{
  allocate, new_server, add_server, get_by_addr, get_by_addr_internal, Found, over_quota,
  is_loopback, mapping_for,
}
use dpmaster_x.Servers.Slots.{
  IsWellFormed, IsCalmFrom, is_unused_at, check_timeouts-keeps, is_active-IsWellFormed,
}
use dpmaster_x.Servers.Slots.Allocate.{find_free-IsFirstFree}
use dpmaster_x.Servers.Slots.Search.{search_chain-keeps, is_active-calm, with_users-IsWellFormed}
use dpmaster_x.Servers.Slots.Write.{search_chain-IsUsedIn}

-- No server of the list has timed out.
abbrev pub AllCurrent : List Server → ℕ → Type 0
AllCurrent servers crt_time =
    (j : ℕ)
    → is_unused_at servers j ≡ false
    → ltb_ℤ (get_or servers j cleared).timeout (pos crt_time) ≡ false

pub set-AllCurrent :
    (servers : List Server) (i : ℕ) (sv : Server) (crt_time : ℕ)
    → AllCurrent servers crt_time
    → i < length servers
    → ltb_ℤ sv.timeout (pos crt_time) ≡ false
    → AllCurrent (set servers i sv) crt_time
set-AllCurrent servers i sv crt_time calm h l j u = elim (ℕ_discrete i j) [
  | yes e ↦ rw (← e, get_or-set_self servers i sv cleared h) l
  | no n ↦
      rw (get_or-set_ne servers i j sv cleared n)
        (calm j (rw (get_or-set_ne servers i j sv cleared n) at u))
]

allocate-servers :
    (s : Servers) (i : ℕ) (address : Address) (crt_time : ℕ)
    → IsCalmFrom s 0 crt_time
    → (allocate s i address crt_time).servers ≡ set s.servers i (new_server s address crt_time)
unfolding allocate
allocate-servers s i address crt_time calm =
    let raised : Servers = record s {
      last_used_slot = if ltb (end_of s.last_used_slot) (suc i) then some i else s.last_used_slot;
      first_free_slot = none;
    } in
    let (r, run, first) =
      find_free-IsFirstFree s.max_nb_servers raised (suc i) crt_time (omega arith) refl
        (λ j l. calm j (omega arith)) in
    rw (run, allocate) refl

-- What the call leaves: no timed-out server, and a server in use, if there is one.
abbrev pub IsAdded : ℕ → Servers × Option ℕ → Type 0
IsAdded crt_time r =
    AllCurrent r.0.servers crt_time × OnSome (λ i. is_unused_at r.0.servers i ≡ false) r.1

allocate-IsAdded :
    (s : Servers) (i : ℕ) (address : Address) (crt_time : ℕ)
    → IsWellFormed s
    → s.first_free_slot ≡ some i
    → IsCalmFrom s 0 crt_time
    → IsAdded crt_time (allocate s i address crt_time, some i)
allocate-IsAdded s i address crt_time w e calm = rw (allocate-servers s i address crt_time calm) (
  set-AllCurrent s.servers i sv crt_time (λ j u. calm j (omega arith) u) inside (ground arith),
  ap (λ x. is_unused x.state) (get_or-set_self s.servers i sv cleared inside),
)
  where
    sv : Server
    sv = new_server s address crt_time

    inside : i < length s.servers
    inside = omega (arith, (w.free i e).0, w.size)

add_server-IsAdded :
    (s : Servers) (address : Address) (count crt_time : ℕ)
    → IsWellFormed s
    → IsCalmFrom s 0 crt_time
    → IsAdded crt_time (add_server s address count crt_time)
unfolding add_server
add_server-IsAdded s address count crt_time w calm = elim (Bool-cases (over_quota s count)) [
  | inl refused ↦ rw (refused, add_server) (now s calm, tt)
  | inr within ↦
      elim (Bool-cases
        (not s.allow_loopback && (is_loopback address && not (is_some (mapping_for s address))))) [
          | inl looped ↦ rw (within, looped, add_server) (now s calm, tt)
          | inr outside ↦
              rw (within, outside, add_server)
                (room current (kept IsWellFormed (λ s i. is_active-IsWellFormed s i crt_time) w)
                  (kept (λ s. IsCalmFrom s 0 crt_time) (λ s i. is_active-calm s i crt_time) calm))
        ]
]
  where
    current : Servers
    current = if s.nb_servers == s.max_nb_servers then check_timeouts s crt_time else s

    kept :
        (P : Servers → Type 0)
        → ((s : Servers) (i : ℕ) → P s → P (is_active s i crt_time).0)
        → P s
        → P current
    kept P keep p = elim (Bool-cases (s.nb_servers == s.max_nb_servers)) [
      | inl full ↦ rw (full) (check_timeouts-keeps P crt_time keep s p)
      | inr free ↦ rw (free) p
    ]

    now : (s : Servers) → IsCalmFrom s 0 crt_time → AllCurrent s.servers crt_time
    now s calm j u = calm j (omega arith) u

    room :
        (s : Servers)
        → IsWellFormed s
        → IsCalmFrom s 0 crt_time
        → IsAdded crt_time (
            if s.nb_servers == s.max_nb_servers then (s, none) else (elim s.first_free_slot [
              | none ↦ (s, none)
              | some i ↦ (allocate s i address crt_time, some i)
            ]))
    room s w calm = elim (Bool-cases (s.nb_servers == s.max_nb_servers)) [
      | inl full ↦ rw (full) (now s calm, tt)
      | inr free ↦ elim (Option-cases s.first_free_slot) [
        | inl n ↦ rw (free, n) (now s calm, tt)
        | inr (i, e) ↦ rw (free, e) (allocate-IsAdded s i address crt_time w e calm)
      ]
    ]

pub get_by_addr-IsAdded :
    (s : Servers) (address : Address) (crt_time : ℕ)
    → IsWellFormed s
    → IsCalmFrom s 0 crt_time
    → IsAdded crt_time (get_by_addr s address true crt_time)
unfolding get_by_addr get_by_addr_internal
get_by_addr-IsAdded s address crt_time w calm = elim (Option-cases found.server) [
  | inl e ↦
      rw (e, get_by_addr)
        (add_server-IsAdded found.after address found.same_address_found crt_time
          (kept IsWellFormed (λ s i. is_active-IsWellFormed s i crt_time) with_users-IsWellFormed w)
          calm')
  | inr (i, e) ↦
      rw (e, get_by_addr)
        (
          (λ j u. calm' j (omega arith) u),
          search_chain-IsUsedIn s address hash crt_time s.max_nb_servers (s.users.entries hash) 0 i
              e,
        )
]
  where
    hash : ℕ
    hash = address_hash s.hash_ports address s.sv_hash_size

    found : Found
    found = get_by_addr_internal s address crt_time

    kept :
        (P : Servers → Type 0)
        → ((s : Servers) (i : ℕ) → P s → P (is_active s i crt_time).0)
        → ((s : Servers) (u : Users) → P s → P (record s { users = u }))
        → P s
        → P found.after
    kept P keep relink =
        search_chain-keeps P crt_time keep relink s address hash s.max_nb_servers
          (s.users.entries hash) 0

    calm' : IsCalmFrom found.after 0 crt_time
    calm' =
        kept (λ s. IsCalmFrom s 0 crt_time) (λ s i. is_active-calm s i crt_time) (λ s u c. c) calm
