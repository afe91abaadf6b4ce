-- ===== src/Servers/Slots/Pending.antt =====
-- src/servers.c: the servers that an iteration has still to visit, while none times out.
use native.Mathlib.Decide.{ℕ_discrete}
use dpmaster_x.Prelude.{
  ℕ, zero, suc, ◌+◌, ◌%◌, ◌≤◌, ◌<◌, ◌≡◌, refl, ap, ◌∙◌, ◌≢◌, inl, inr, Bool, true, false, not, ◌&&◌,
  ◌||◌, Option, none, some, arith, ltb, leb, ◌==◌, if◌then◌else◌, end_of, Bool-cases, OnSome,
  OnSome-map,
}
use dpmaster_x.Servers.{Servers}
use dpmaster_x.Servers.Iterate.{get_next_from, get_next}
use dpmaster_x.Servers.Slots.{IsWellFormed, IsCalmFrom, is_unused_at, is_active_calm}
use dpmaster_x.Servers.Slots.Iteration.{IsIterating, distance}
use dpmaster_x.Servers.Slots.Yield.{started_at}
use dpmaster_x.Servers.Slots.Rounds.{distance-le}
use dpmaster_x.Servers.Slots.Circle.{
  at_current, at_current-IsWellFormed, IsIterating-next, distance-zero, modulo-some, mod-next,
}

-- Is a slot still to be visited, between the ends of the indices?
unfoldable pub ahead : ℕ → ℕ → ℕ → ℕ → Bool
ahead current last used i =
    if ltb last current
    then (leb current i && ltb i used) || ltb i last
    else leb current i && ltb i last

abbrev pub one_if : Bool → ℕ
one_if b = if b then 1 else 0

ahead-step :
    (c l used i ind : ℕ)
    → c ≤ used
    → l ≤ used
    → 0 < c
    → 0 < l
    → c ≢ l
    → ind ≡ (if c == used then 0 else c)
    → one_if (ahead c l used i) ≡ one_if (ind == i) + one_if (ahead (suc ind) l used i)
unfolding ahead
ahead-step c l used i ind h k p q n e = ground (arith, e)

-- How often the server of a slot is still to be visited.
unfoldable pub pending : Servers → ℕ → ℕ
unfolding ahead
pending s i =
    if is_unused_at s.servers i
    then 0
    else one_if
        (ahead (end_of s.crt_server_ind) (end_of s.last_server_ind) (end_of s.last_used_slot) i)

-- A step of the circle.
pending-step :
    (s : Servers) (i : ℕ)
    → IsIterating s
    → end_of s.crt_server_ind ≢ end_of s.last_server_ind
    → let ind = end_of s.crt_server_ind % end_of s.last_used_slot in
      pending s i
      ≡ (if is_unused_at s.servers i then 0 else one_if (ind == i)) + pending (at_current s ind) i
unfolding pending at_current
pending-step s i it n = elim (Bool-cases (is_unused_at s.servers i)) [
  | inl unused ↦ rw (unused) refl
  | inr used ↦
      let (room, it', near) = IsIterating-next s it n in
      rw (used) (
        ahead-step (end_of s.crt_server_ind) (end_of s.last_server_ind) (end_of s.last_used_slot) i
          (end_of s.crt_server_ind % end_of s.last_used_slot) it.current it.last
          (it.current_index room) (it.last_index room) n
          (mod-next (end_of s.crt_server_ind) (end_of s.last_used_slot) it.current room))
]

-- Whether a slot is visited depends on its own state.
pub visited-at :
    (s : Servers) (ind i : ℕ) (b : Bool)
    → is_unused_at s.servers ind ≡ b
    → (if is_unused_at s.servers i then 0 else one_if (ind == i))
      ≡ (if b then 0 else one_if (ind == i))
visited-at s ind i b e = elim (ℕ_discrete ind i) [
  | yes same ↦ rw (← same, e) refl
  | no other ↦ ground arith
]

pending-at :
    (s : Servers) (i : ℕ) (b : Bool)
    → IsIterating s
    → end_of s.crt_server_ind ≢ end_of s.last_server_ind
    → let ind = end_of s.crt_server_ind % end_of s.last_used_slot in
      is_unused_at s.servers ind ≡ b
      → pending s i ≡ (if b then 0 else one_if (ind == i)) + pending (at_current s ind) i
pending-at s i b it n e =
    let ind = end_of s.crt_server_ind % end_of s.last_used_slot in
    pending-step s i it n ∙ ap (λ n. n + pending (at_current s ind) i) (visited-at s ind i b e)

pub pending-end :
    (s : Servers) (i : ℕ) → end_of s.crt_server_ind ≡ end_of s.last_server_ind → pending s i ≡ 0
unfolding pending ahead
pending-end s i e = ground (arith, e)

-- What a call yields and what is pending after it.
abbrev pub due : Servers × Option ℕ → ℕ → ℕ
due (s, none) i = 0
due (s, some j) i = one_if (j == i) + pending s i

-- The call leaves the array alone, and yields what was pending, or leaves it pending.
abbrev pub IsAccounted : Servers → Servers × Option ℕ → Type 0
IsAccounted s r = (r.0.servers ≡ s.servers) × ((i : ℕ) → pending s i ≡ due r i)

get_next_from-end :
    (rounds : ℕ) (s : Servers) (crt_time : ℕ)
    → end_of s.crt_server_ind ≡ end_of s.last_server_ind
    → get_next_from (suc rounds) s crt_time ≡ some (s, none)
unfolding get_next_from
get_next_from-end rounds s crt_time e = ground arith

-- A round of Sv_GetNext, if no server has timed out.
get_next_from-calm :
    (rounds : ℕ) (s : Servers) (crt_time : ℕ)
    → IsIterating s
    → IsCalmFrom s 0 crt_time
    → end_of s.crt_server_ind ≢ end_of s.last_server_ind
    → let ind = end_of s.crt_server_ind % end_of s.last_used_slot in
      get_next_from (suc rounds) s crt_time ≡ (
        if is_unused_at s.servers ind
        then get_next_from rounds (at_current s ind) crt_time
        else some (at_current s ind, some ind))
unfolding get_next_from at_current
get_next_from-calm rounds s crt_time it calm n =
    let ind = end_of s.crt_server_ind % end_of s.last_used_slot in
    let go : end_of s.crt_server_ind == end_of s.last_server_ind ≡ false = ground arith in
    let room = (IsIterating-next s it n).0 in
    let visit = is_active_calm (at_current s ind) 0 ind crt_time calm (omega arith) in
    rw (go, modulo-some (end_of s.crt_server_ind) (end_of s.last_used_slot) room, get_next_from)
      (ap
          (λ (a : Servers × Bool). elim a.1 [
            | true ↦ some (a.0, some ind)
            | false ↦ get_next_from rounds a.0 crt_time
          ])
          visit
        ∙ elim (Bool-cases (is_unused_at s.servers ind)) [
          | inl unused ↦ rw (unused) refl
          | inr used ↦ rw (used) refl
        ])

get_next_from-IsAccounted :
    (rounds : ℕ) (s : Servers) (crt_time : ℕ)
    → IsWellFormed s
    → IsIterating s
    → IsCalmFrom s 0 crt_time
    → distance s ≤ rounds
    → OnSome (IsAccounted s) (get_next_from rounds s crt_time)
unfolding at_current
get_next_from-IsAccounted zero s crt_time w it calm d =
    unfold get_next_from in (refl, λ i. pending-end s i (distance-zero s it d))
get_next_from-IsAccounted (suc rounds) s crt_time w it calm d =
    elim (ℕ_discrete (end_of s.crt_server_ind) (end_of s.last_server_ind)) [
      | yes stop ↦ rw (get_next_from-end rounds s crt_time stop) (refl, λ i. pending-end s i stop)
      | no go ↦
          let ind = end_of s.crt_server_ind % end_of s.last_used_slot in
          let (room, it', near) = IsIterating-next s it go in
          elim (Bool-cases (is_unused_at s.servers ind)) [
            | inr used ↦
                rw (get_next_from-calm rounds s crt_time it calm go, used)
                  (refl, λ i. pending-at s i false it go used)
            | inl unused ↦
                rw (get_next_from-calm rounds s crt_time it calm go, unused)
                  (OnSome-map {P = IsAccounted (at_current s ind)} {Q = IsAccounted s}
                    (λ r a. (a.0, λ i. omega (arith, pending-at s i true it go unused, a.1 i))) _
                    (get_next_from-IsAccounted rounds (at_current s ind) crt_time
                      (at_current-IsWellFormed s ind w) it' calm (omega (arith, near, d))))
          ]
    ]

pub get_next-IsAccounted :
    (s : Servers) (crt_time : ℕ)
    → IsWellFormed s
    → IsIterating s
    → IsCalmFrom s 0 crt_time
    → OnSome (IsAccounted s) (get_next s crt_time)
unfolding get_next
get_next-IsAccounted s crt_time w it calm =
    get_next_from-IsAccounted s.max_nb_servers s crt_time w it calm (distance-le s w it)

-- The first server and those that are pending at the start are all servers in use.
pub pending-started :
    (s : Servers) (ind i : ℕ)
    → IsWellFormed s
    → ind < end_of s.last_used_slot
    → (if is_unused_at s.servers i then 0 else one_if (ind == i)) + pending (started_at s ind) i
      ≡ one_if (not (is_unused_at s.servers i))
unfolding pending ahead started_at
pending-started s zero i w h = ground (arith, w.last i)
pending-started s (suc ind) i w h = ground (arith, w.last i)
