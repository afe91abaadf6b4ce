-- ===== src/Servers/Slots/Rounds.antt =====
-- src/servers.c: the distance of Sv_GetNext to the end of the iteration.
use dpmaster_x.Prelude.{
  ℕ, zero, suc, ◌%◌, ◌≤◌, ◌<◌, ◌≡◌, refl, Option, some, arith, Bool-cases, inl, inr, OnSome,
  OnSome-at, ◌==◌, end_of,
}
use dpmaster_x.Servers.{Servers, is_active}
use dpmaster_x.Servers.Iterate.{get_next_from, get_next}
use dpmaster_x.Servers.Slots.{IsWellFormed}
use dpmaster_x.Servers.Slots.Iteration.{IsIterating, distance, gap, is_active-IsVisit}
use dpmaster_x.Servers.Slots.Circle.{
  at_current, at_current-IsWellFormed, IsIterating-next, modulo-some,
}

-- A result that holds a server is nearer to the end than a bound.
abbrev IsNearer : ℕ → Servers × Option ℕ → Type 0
IsNearer bound r = (i : ℕ) → r.1 ≡ some i → distance r.0 < bound

get_next_from-IsNearer :
    (rounds : ℕ) (s : Servers) (crt_time bound : ℕ)
    → IsWellFormed s
    → IsIterating s
    → distance s ≤ bound
    → OnSome (IsNearer bound) (get_next_from rounds s crt_time)
unfolding get_next_from at_current
get_next_from-IsNearer zero s crt_time bound w it d = λ i h. cc
get_next_from-IsNearer (suc rounds) s crt_time bound w it d =
    elim (Bool-cases (end_of s.crt_server_ind == end_of s.last_server_ind)) [
      | inl stop ↦ rw (stop, get_next_from) (λ i h. cc)
      | inr go ↦
          let ind = end_of s.crt_server_ind % end_of s.last_used_slot in
          let (room, it1, near) = IsIterating-next s it (ground arith) in
          let visit =
            is_active-IsVisit (at_current s ind) ind crt_time refl (at_current-IsWellFormed s ind w)
              it1 in
          elim (Bool-cases (is_active (at_current s ind) ind crt_time).1) [
            | inl alive ↦
                rw
                  (
                    go,
                    modulo-some (end_of s.crt_server_ind) (end_of s.last_used_slot) room,
                    alive,
                    get_next_from,
                  )
                  (λ i h. omega (arith, near, visit.nearer, d))
            | inr skipped ↦
                rw
                  (
                    go,
                    modulo-some (end_of s.crt_server_ind) (end_of s.last_used_slot) room,
                    skipped,
                    get_next_from,
                  )
                  (get_next_from-IsNearer rounds (is_active (at_current s ind) ind crt_time).0
                    crt_time bound visit.kept visit.iterating
                    (omega (arith, near, visit.nearer, d)))
          ]
    ]

pub get_next-nearer :
    (s s' : Servers) (crt_time i : ℕ)
    → IsWellFormed s
    → IsIterating s
    → get_next s crt_time ≡ some (s', some i)
    → distance s' < distance s
unfolding get_next
get_next-nearer s s' crt_time i w it h =
    OnSome-at (IsNearer (distance s))
      (get_next_from-IsNearer s.max_nb_servers s crt_time (distance s) w it (omega arith)) h i refl

pub distance-le : (s : Servers) → IsWellFormed s → IsIterating s → distance s ≤ s.max_nb_servers
unfolding distance gap
distance-le s w it = ground (arith, w.last_inside, it.current, it.last)
