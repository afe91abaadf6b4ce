-- ===== src/Servers/Iterate.antt =====
-- src/servers.c: the iteration over the active servers, and Sv_PrintServerList. A result `none`
-- is a division by zero.
use dpmaster_x.Prelude.{
  ℕ, zero, suc, ◌%◌, true, false, Option, none, some, ◌==◌, if◌then◌else◌, Index, end_of,
}
use dpmaster_x.Servers.{Servers, is_active, check_timeouts}

-- `rand () % n` and the like
unfoldable pub modulo : ℕ → ℕ → Option ℕ
modulo a zero = none
modulo a (suc n) = some (a % suc n)

-- Sv_GetNext. Each round goes one slot on, so as many rounds as there are slots are enough.
unfoldable pub get_next_from : ℕ → Servers → ℕ → Option (Servers × Option ℕ)
get_next_from zero s crt_time = some (s, none)
get_next_from (suc rounds) s crt_time =
    if end_of s.crt_server_ind == end_of s.last_server_ind
    then some (s, none)
    else (elim (modulo (end_of s.crt_server_ind) (end_of s.last_used_slot)) [
      | none ↦ none
      | some ind ↦
          let active = is_active (record s { crt_server_ind = some ind }) ind crt_time in
          elim active.1 [
            | true ↦ some (active.0, some ind)
            | false ↦ get_next_from rounds active.0 crt_time
          ]
    ])

unfoldable pub get_next : Servers → ℕ → Option (Servers × Option ℕ)
unfolding modulo get_next_from
get_next s crt_time = get_next_from s.max_nb_servers s crt_time

-- The end of an iteration that starts at `ind`.
abbrev pub last_from : Servers → ℕ → Index
last_from s zero = s.last_used_slot
last_from s (suc i) = some i

-- Sv_GetFirst; `rand` is what the random number generator returns.
unfoldable pub get_first : Servers → ℕ → ℕ → Option (Servers × Option ℕ)
unfolding modulo get_next
get_first s rand crt_time =
    if s.nb_servers == 0 then some (s, none) else (elim (modulo rand (end_of s.last_used_slot)) [
      | none ↦ none
      | some ind ↦
          let started = record s { crt_server_ind = some ind; last_server_ind = last_from s ind } in
          let active = is_active started ind crt_time in
          if active.1 then some (active.0, some ind) else get_next active.0 crt_time
    ])

-- Sv_PrintServerList: what it does to the list. The text is not modelled.
unfoldable pub print_server_list : Servers → ℕ → Servers
print_server_list s crt_time = check_timeouts s crt_time
