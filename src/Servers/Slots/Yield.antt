-- ===== src/Servers/Slots/Yield.antt =====
-- src/servers.c: Sv_GetFirst and Sv_GetNext over a well-formed list.
use native.Mathlib.Nat.{mod-lt}
use dpmaster_x.Prelude.{
  ltb_ℤ, pos, ℕ, zero, suc, ◌%◌, ◌≤◌, ◌<◌, ◌≡◌, refl, ap, ◌≢◌, ◌⊎◌, inl, inr, Bool, true, false,
  Option, none, some, List, [], ◌∷◌, arith, ◌==◌, end_of, Bool-cases, subst,
}
use dpmaster_x.Servers.{Server, Servers, server_at, is_active, is_unused}
use dpmaster_x.Servers.Iterate.{get_next_from, get_next, last_from, get_first}
use dpmaster_x.Servers.Slots.{IsWellFormed, is_unused_at, count_used}
use dpmaster_x.Servers.Slots.Iteration.{IsIterating, IsVisit, distance, gap, is_active-IsVisit}
use dpmaster_x.Servers.Slots.Circle.{
  at_current, at_current-IsWellFormed, IsIterating-next, end_of-inj, distance-zero, modulo-some,
}

-- What a call returns: the list is well formed; a server is at the current index, in use and
-- not timed out; without one, the iteration is at its end or the list is empty.
pub record IsYield (crt_time : ℕ) (r : Servers × Option ℕ) : Type 0 where
  pub kept : IsWellFormed r.0
  pub found :
      (i : ℕ)
      → r.1 ≡ some i
      → (r.0.crt_server_ind ≡ some i)
        × (is_unused_at r.0.servers i ≡ false)
        × (ltb_ℤ (server_at r.0 i).timeout (pos crt_time) ≡ false)
        × IsIterating r.0
  pub over : r.1 ≡ none → (r.0.crt_server_ind ≡ r.0.last_server_ind) ⊎ (r.0.nb_servers ≡ 0)

-- What Sv_GetNext returns: also the indices stay within the used slots, and without a server the
-- iteration is at its end.
pub record IsNext (crt_time : ℕ) (r : Servers × Option ℕ) : Type 0 where
  pub yield : IsYield crt_time r
  pub iterating : IsIterating r.0
  pub ended : r.1 ≡ none → r.0.crt_server_ind ≡ r.0.last_server_ind

at_end-IsNext :
    (s : Servers) (crt_time : ℕ)
    → IsWellFormed s
    → IsIterating s
    → end_of s.crt_server_ind ≡ end_of s.last_server_ind
    → IsNext crt_time (s, none)
at_end-IsNext s crt_time w it e = record {
  yield = record { kept = w; found = λ i h. cc; over = λ h. inl same };
  iterating = it;
  ended = λ h. same;
}
  where
    same : s.crt_server_ind ≡ s.last_server_ind
    same = end_of-inj s.crt_server_ind s.last_server_ind e

visit-IsYield :
    (s : Servers) (ind crt_time : ℕ) (r : Servers × Bool)
    → IsVisit s ind crt_time r
    → r.1 ≡ true
    → IsYield crt_time (r.0, some ind)
visit-IsYield s ind crt_time r visit alive = record {
  kept = visit.kept;
  found = λ i h.
      let same : ind ≡ i = some-inj h in
      subst
        (λ i.
          (r.0.crt_server_ind ≡ some i)
          × (is_unused_at r.0.servers i ≡ false)
          × (ltb_ℤ (server_at r.0 i).timeout (pos crt_time) ≡ false)
          × IsIterating r.0)
        same ((visit.alive alive).0, (visit.alive alive).1, (visit.alive alive).2, visit.iterating);
  over = λ h. cc;
}
  where
    get_index : Option ℕ → ℕ
    get_index none = 0
    get_index (some i) = i

    some-inj : {i j : ℕ} → some i ≡ some j → i ≡ j
    some-inj {i} {j} h = ap get_index h

-- With as many rounds as there are slots to visit, the loop gets to a server or to the end.
get_next_from-IsNext :
    (rounds : ℕ) (s : Servers) (crt_time : ℕ)
    → IsWellFormed s
    → IsIterating s
    → distance s ≤ rounds
    → (r : Servers × Option ℕ) × (get_next_from rounds s crt_time ≡ some r) × IsNext crt_time r
unfolding get_next_from at_current
get_next_from-IsNext zero s crt_time w it d =
    ((s, none), refl, at_end-IsNext s crt_time w it (distance-zero s it d))
get_next_from-IsNext (suc rounds) s crt_time w it d =
    elim (Bool-cases (end_of s.crt_server_ind == end_of s.last_server_ind)) [
      | inl stop ↦
          ((s, none), rw (stop, get_next_from) refl, at_end-IsNext s crt_time w it (ground arith))
      | inr go ↦
          let ind = end_of s.crt_server_ind % end_of s.last_used_slot in
          let (room, it1, near) = IsIterating-next s it (ground arith) in
          let visit =
            is_active-IsVisit (at_current s ind) ind crt_time refl (at_current-IsWellFormed s ind w)
              it1 in
          elim (Bool-cases (is_active (at_current s ind) ind crt_time).1) [
            | inl alive ↦ (
              ((is_active (at_current s ind) ind crt_time).0, some ind),
              rw
                  (
                    go,
                    modulo-some (end_of s.crt_server_ind) (end_of s.last_used_slot) room,
                    alive,
                    get_next_from,
                  )
                  refl,
              record {
                yield =
                    visit-IsYield (at_current s ind) ind crt_time
                      (is_active (at_current s ind) ind crt_time) visit alive;
                iterating = visit.iterating;
                ended = λ h. cc;
              },
            )
            | inr skipped ↦
                let (r, run, y) =
                  get_next_from-IsNext rounds (is_active (at_current s ind) ind crt_time).0 crt_time
                    visit.kept visit.iterating (omega (arith, near, visit.nearer, d)) in
                (
                  r,
                  rw
                      (
                        go,
                        modulo-some (end_of s.crt_server_ind) (end_of s.last_used_slot) room,
                        skipped,
                        get_next_from,
                      )
                      run,
                  y,
                )
          ]
    ]

-- On a well-formed list, with both indices of the iteration within the used slots, Sv_GetNext
-- ends without dividing by zero: it returns a server that is in use, has not timed out and
-- stands at crt_server_ind, or no server, and then the iteration is at its end. The list stays
-- well formed and the indices stay within the used slots.
pub get_next-IsNext :
    (s : Servers) (crt_time : ℕ)
    → IsWellFormed s
    → IsIterating s
    → (r : Servers × Option ℕ) × (get_next s crt_time ≡ some r) × IsNext crt_time r
unfolding get_next distance gap
get_next-IsNext s crt_time w it =
    get_next_from-IsNext s.max_nb_servers s crt_time w it
      (ground (arith, w.last_inside, it.current, it.last))

pub has_used :
    (servers : List Server) → count_used servers ≢ 0 → (i : ℕ) × (is_unused_at servers i ≡ false)
unfolding count_used
has_used [] n = absurd (n refl)
has_used (sv ∷ svs) n = elim (Bool-cases (is_unused sv.state)) [
  | inl unused ↦ let (i, h) = has_used svs (ground (arith, n)) in (suc i, h)
  | inr used ↦ (0, used)
]

-- The start of an iteration.
unfoldable pub started_at : Servers → ℕ → Servers
started_at s ind = record s { crt_server_ind = some ind; last_server_ind = last_from s ind }

pub started_at-IsWellFormed : (s : Servers) (i : ℕ) → IsWellFormed s → IsWellFormed (started_at s i)
unfolding started_at
started_at-IsWellFormed s i w = record {
  size = w.size;
  small = w.small;
  counted = w.counted;
  last = w.last;
  last_used = w.last_used;
  last_inside = w.last_inside;
  free = w.free;
  free_least = w.free_least;
}

pub started_at-IsIterating :
    (s : Servers) (i : ℕ) → i < end_of s.last_used_slot → IsIterating (started_at s i)
unfolding started_at
started_at-IsIterating s zero h = record {
  current = h;
  last = omega arith;
  current_index = λ k. omega arith;
  last_index = λ k. k;
}
started_at-IsIterating s (suc i) h = record {
  current = h;
  last = omega arith;
  current_index = λ k. omega arith;
  last_index = λ k. omega arith;
}

-- On a well-formed list Sv_GetFirst never divides by zero, whatever rand returns, and ends: it
-- returns a server that is in use, has not timed out and stands at crt_server_ind, or no server,
-- and then the iteration is at its end or the list is empty. The list stays well formed.
pub get_first-IsYield :
    (s : Servers) (rand crt_time : ℕ)
    → IsWellFormed s
    → (r : Servers × Option ℕ) × (get_first s rand crt_time ≡ some r) × IsYield crt_time r
unfolding get_first started_at
get_first-IsYield s rand crt_time w = elim (Bool-cases (s.nb_servers == 0)) [
  | inl no_server ↦ (
    (s, none),
    rw (no_server) refl,
    record { kept = w; found = λ i h. cc; over = λ h. inr (ground arith) },
  )
  | inr some_server ↦
      let (i, used) = has_used s.servers (ground (arith, w.counted)) in
      let ind = rand % end_of s.last_used_slot in
      let room : 0 < end_of s.last_used_slot = omega (arith, w.last i used) in
      let visit =
        is_active-IsVisit (started_at s ind) ind crt_time refl (started_at-IsWellFormed s ind w)
          (started_at-IsIterating s ind (mod-lt rand room)) in
      elim (Bool-cases (is_active (started_at s ind) ind crt_time).1) [
        | inl alive ↦ (
          ((is_active (started_at s ind) ind crt_time).0, some ind),
          rw (some_server, modulo-some rand (end_of s.last_used_slot) room, alive) refl,
          visit-IsYield (started_at s ind) ind crt_time (is_active (started_at s ind) ind crt_time)
              visit alive,
        )
        | inr skipped ↦
            let (r, run, y) =
              get_next-IsNext (is_active (started_at s ind) ind crt_time).0 crt_time visit.kept
                visit.iterating in
            (
              r,
              rw (some_server, modulo-some rand (end_of s.last_used_slot) room, skipped) run,
              y.yield,
            )
      ]
]
