-- ===== src/Servers/Slots/Visits.antt =====
-- src/servers.c: what a whole iteration by Sv_GetFirst and Sv_GetNext visits.
use native.Mathlib.Nat.{mod-lt}
use dpmaster_x.Prelude.{
  ℕ, zero, suc, ◌+◌, ◌%◌, ◌≤◌, ◌<◌, ◌≡◌, refl, sym, ap, ◌∙◌, inl, inr, Bool, true, false, not,
  Option, none, some, List, [], ◌∷◌, arith, length, ◌==◌, if◌then◌else◌, end_of, Bool-cases, OnSome,
  OnSome-at, OnSome-map,
}
use dpmaster_x.Servers.{cleared, Servers}
use dpmaster_x.Servers.Iterate.{get_next, get_first}
use dpmaster_x.Servers.Slots.{
  IsWellFormed, IsCalmFrom, is_unused_at, is_active_calm, count_used-free,
}
use dpmaster_x.Servers.Slots.Iteration.{IsIterating, distance}
use dpmaster_x.Servers.Slots.Yield.{
  IsYield, get_next-IsNext, get_first-IsYield, started_at, has_used, started_at-IsWellFormed,
  started_at-IsIterating,
}
use dpmaster_x.Servers.Slots.Rounds.{distance-le, get_next-nearer}
use dpmaster_x.Servers.Slots.Circle.{distance-zero, modulo-some}
use dpmaster_x.Servers.Slots.Pending.{
  one_if, pending, due, IsAccounted, pending-end, visited-at, pending-started, get_next-IsAccounted,
}

-- The slots that the calls of Sv_GetNext yield.
unfoldable pub visits : ℕ → Servers → ℕ → List ℕ
visits zero s crt_time = []
visits (suc rounds) s crt_time = elim (get_next s crt_time) [
  | none ↦ []
  | some (s', none) ↦ []
  | some (s', some i) ↦ i ∷ visits rounds s' crt_time
]

-- The slots that an iteration yields, from Sv_GetFirst until it yields none.
unfoldable pub iterate : Servers → ℕ → ℕ → List ℕ
iterate s rand crt_time = elim (get_first s rand crt_time) [
  | none ↦ []
  | some (s', none) ↦ []
  | some (s', some i) ↦ i ∷ visits s.max_nb_servers s' crt_time
]

pub occurrences : ℕ → List ℕ → ℕ
occurrences i [] = 0
occurrences i (j ∷ js) = one_if (j == i) + occurrences i js

pub calm_after :
    (s s' : Servers) (crt_time : ℕ)
    → s'.servers ≡ s.servers
    → IsCalmFrom s 0 crt_time
    → IsCalmFrom s' 0 crt_time
calm_after s s' crt_time e calm j h u = rw (e) (calm j h (rw (← e) u))

visits-pending :
    (rounds : ℕ) (s : Servers) (crt_time i : ℕ)
    → IsWellFormed s
    → IsIterating s
    → IsCalmFrom s 0 crt_time
    → distance s ≤ rounds
    → occurrences i (visits rounds s crt_time) ≡ pending s i
unfolding visits occurrences
visits-pending zero s crt_time i w it calm d = sym (pending-end s i (distance-zero s it d))
visits-pending (suc rounds) s crt_time i w it calm d =
    let (r, run, n) = get_next-IsNext s crt_time w it in
    let y = n.yield in
    after r run y (OnSome-at (IsAccounted s) (get_next-IsAccounted s crt_time w it calm) run)
      (λ s' w it calm d. visits-pending rounds s' crt_time i w it calm d)
  where
    after :
        (r : Servers × Option ℕ)
        → get_next s crt_time ≡ some r
        → IsYield crt_time r
        → IsAccounted s r
        → ((s' : Servers)
            → IsWellFormed s'
            → IsIterating s'
            → IsCalmFrom s' 0 crt_time
            → distance s' ≤ rounds
            → occurrences i (visits rounds s' crt_time) ≡ pending s' i)
        → occurrences i (visits (suc rounds) s crt_time) ≡ pending s i
    after (s', none) run y a rest = rw (run, visits) (sym (a.1 i))
    after (s', some j) run y a rest =
        rw (run, visits)
          (ap (λ n. one_if (j == i) + n)
              (rest s' y.kept (y.found j refl).3 (calm_after s s' crt_time a.0 calm)
                (omega (arith, d, get_next-nearer s s' crt_time j w it run)))
            ∙ sym (a.1 i))

-- The first step of an iteration, if no server has timed out.
get_first-calm :
    (s : Servers) (rand crt_time : ℕ)
    → IsCalmFrom s 0 crt_time
    → s.nb_servers == 0 ≡ false
    → 0 < end_of s.last_used_slot
    → let ind = rand % end_of s.last_used_slot in
      get_first s rand crt_time ≡ (
        if is_unused_at s.servers ind
        then get_next (started_at s ind) crt_time
        else some (started_at s ind, some ind))
unfolding get_first started_at
get_first-calm s rand crt_time calm some_server room =
    let ind = rand % end_of s.last_used_slot in
    let visit = is_active_calm (started_at s ind) 0 ind crt_time calm (omega arith) in
    rw (some_server, modulo-some rand (end_of s.last_used_slot) room, get_first)
      (ap (λ (a : Servers × Bool). if a.1 then some (a.0, some ind) else get_next a.0 crt_time)
          visit
        ∙ elim (Bool-cases (is_unused_at s.servers ind)) [
          | inl unused ↦ rw (unused) refl
          | inr used ↦ rw (used) refl
        ])

abbrev pub IsDue : Servers → ℕ → Servers × Option ℕ → Type 0
IsDue s i r = (r.0.servers ≡ s.servers) × (one_if (not (is_unused_at s.servers i)) ≡ due r i)

-- What the first call yields, and what it leaves pending, are the servers in use.
pub get_first-IsDue :
    (s : Servers) (rand crt_time i : ℕ)
    → IsWellFormed s
    → IsCalmFrom s 0 crt_time
    → OnSome (IsDue s i) (get_first s rand crt_time)
unfolding started_at
get_first-IsDue s rand crt_time i w calm = elim (Bool-cases (s.nb_servers == 0)) [
  | inl no_server ↦ unfold get_first in rw (no_server) (refl, no_used i no_server)
  | inr some_server ↦
      let ind = rand % end_of s.last_used_slot in
      let (k, used) = has_used s.servers (ground (arith, w.counted)) in
      let room : 0 < end_of s.last_used_slot = omega (arith, w.last k used) in
      let inside : ind < end_of s.last_used_slot = mod-lt rand room in
      let start = started_at s ind in
      let all = pending-started s ind i w inside in
      elim (Bool-cases (is_unused_at s.servers ind)) [
        | inr used ↦
            rw (get_first-calm s rand crt_time calm some_server room, used)
              (refl, omega (arith, all, visited-at s ind i false used))
        | inl unused ↦
            rw (get_first-calm s rand crt_time calm some_server room, unused)
              (OnSome-map {P = IsAccounted start} {Q = IsDue s i}
                (λ r a. (a.0, omega (arith, all, visited-at s ind i true unused, a.1 i))) _
                (get_next-IsAccounted start crt_time (started_at-IsWellFormed s ind w)
                  (started_at-IsIterating s ind inside) calm))
      ]
]
  where
    no_used : (i : ℕ) → s.nb_servers == 0 ≡ true → one_if (not (is_unused_at s.servers i)) ≡ 0
    no_used i e = elim (Bool-cases (is_unused_at s.servers i)) [
      | inl unused ↦ rw (unused) refl
      | inr used ↦
          absurd (ground (arith, e, w.counted, count_used-free s.servers i cleared used refl))
    ]

-- On a well-formed list in which no server has timed out, the calls of Sv_GetFirst and
-- Sv_GetNext, up to one for each slot behind the first, yield each slot in use exactly once and
-- no other slot, whatever rand returns.
pub iterate-occurrences :
    (s : Servers) (rand crt_time i : ℕ)
    → IsWellFormed s
    → IsCalmFrom s 0 crt_time
    → occurrences i (iterate s rand crt_time) ≡ (if is_unused_at s.servers i then 0 else 1)
unfolding iterate occurrences
iterate-occurrences s rand crt_time i w calm =
    let (r, run, y) = get_first-IsYield s rand crt_time w in
    after r run y (OnSome-at (IsDue s i) (get_first-IsDue s rand crt_time i w calm) run)
    ∙ ground arith
  where
    after :
        (r : Servers × Option ℕ)
        → get_first s rand crt_time ≡ some r
        → IsYield crt_time r
        → IsDue s i r
        → occurrences i (iterate s rand crt_time) ≡ one_if (not (is_unused_at s.servers i))
    after (s', none) run y a = rw (run, iterate) (sym a.1)
    after (s', some j) run y a =
        rw (run, iterate)
          (ap (λ n. one_if (j == i) + n)
              (visits-pending s.max_nb_servers s' crt_time i y.kept (y.found j refl).3
                (calm_after s s' crt_time a.0 calm)
                (omega (
                  arith,
                  distance-le s' y.kept (y.found j refl).3,
                  y.kept.size,
                  w.size,
                  ap length a.0,
                )))
            ∙ sym a.1)
