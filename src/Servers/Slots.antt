-- ===== src/Servers/Slots.antt =====
-- src/servers.c: the well-formedness of the server list, and Sv_Remove and Sv_IsActive.
pub mod Allocate
pub mod Search
pub mod Iteration
pub mod Circle
pub mod Part
pub mod Yield
pub mod Rounds
pub mod Start
pub mod Finds
pub mod Write
pub mod Added
pub mod Indexed
pub mod Placed
pub mod Filed
pub mod Chained
pub mod Known
pub mod Searched
pub mod Pending
pub mod Visits
use native.Mathlib.Decide.{ℕ_discrete}
use dpmaster_x.Prelude.{
  ltb_ℤ, pos, ℕ, zero, suc, ◌+◌, ◌-◌, ◌^◌, ◌%◌, ◌≤◌, ◌<◌, ◌≡◌, refl, sym, ap, ◌∙◌, ◌≢◌, ◌⊎◌, inl,
  inr, Bool, true, false, not, Option, none, some, List, [], ◌∷◌, arith, length, get_or, set, ltb,
  ◌==◌, if◌then◌else◌, Index, end_of, Bool-cases, length-set, get_or-set_self, get_or-set_ne,
  get_or-ge, subst,
}
use dpmaster_x.Servers.{
  Server, Servers, ServerState, unused_slot, cleared, server_at, is_unused, last_used_before,
  lower_free, clamp, above, is_index, remove, is_active, check_from, check_timeouts,
}

abbrev pub is_unused_at : List Server → ℕ → Bool
is_unused_at servers i = is_unused (get_or servers i cleared).state

pub count_used : List Server → ℕ
count_used [] = 0
count_used (sv ∷ svs) = if is_unused sv.state then count_used svs else suc (count_used svs)

-- A free slot is not below `first_free_slot`.
abbrev pub Reaches : Index → ℕ → Type 0
Reaches none j = ⊥
Reaches (some f) j = f ≤ j

-- The variables of the file describe the array.
pub record IsWellFormed (s : Servers) : Type 0 where
  pub size : length s.servers ≡ s.max_nb_servers
  pub small : s.max_nb_servers < 2 ^ 31
  pub counted : count_used s.servers ≡ s.nb_servers
  pub last : (i : ℕ) → is_unused_at s.servers i ≡ false → i < end_of s.last_used_slot
  pub last_used : (l : ℕ) → s.last_used_slot ≡ some l → is_unused_at s.servers l ≡ false
  pub last_inside : end_of s.last_used_slot ≤ s.max_nb_servers
  pub free :
      (f : ℕ)
      → s.first_free_slot ≡ some f
      → (f < s.max_nb_servers) × (is_unused_at s.servers f ≡ true)
  pub free_least :
      (j : ℕ) → j < s.max_nb_servers → is_unused_at s.servers j ≡ true → Reaches s.first_free_slot j

pub used-lt : (servers : List Server) (i : ℕ) → is_unused_at servers i ≡ false → i < length servers
used-lt [] i h = cc
used-lt (sv ∷ svs) zero h = omega arith
used-lt (sv ∷ svs) (suc i) h = omega (arith, used-lt svs i h)

pub count_used-free :
    (servers : List Server) (i : ℕ) (sv : Server)
    → is_unused_at servers i ≡ false
    → is_unused sv.state ≡ true
    → suc (count_used (set servers i sv)) ≡ count_used servers
unfolding count_used
count_used-free [] i sv h k = cc
count_used-free (x ∷ svs) zero sv h k = ground arith
count_used-free (x ∷ svs) (suc i) sv h k = ground (arith, count_used-free svs i sv)

pub count_used-take :
    (servers : List Server) (i : ℕ) (sv : Server)
    → i < length servers
    → is_unused_at servers i ≡ true
    → is_unused sv.state ≡ false
    → count_used (set servers i sv) ≡ suc (count_used servers)
unfolding count_used
count_used-take [] i sv l h k = absurd (omega arith)
count_used-take (x ∷ svs) zero sv l h k = ground arith
count_used-take (x ∷ svs) (suc i) sv l h k = ground (arith, count_used-take svs i sv)

pub count_used-le : (servers : List Server) → count_used servers ≤ length servers
unfolding count_used
count_used-le [] = omega arith
count_used-le (x ∷ svs) = ground (arith, count_used-le svs)

-- What `set` leaves at a slot.
pub is_unused_at-set :
    (servers : List Server) (i j : ℕ) (sv : Server)
    → i < length servers
    → is_unused_at (set servers i sv) j
      ≡ (if i == j then is_unused sv.state else is_unused_at servers j)
is_unused_at-set servers i j sv l = elim (ℕ_discrete i j) [
  | yes e ↦ rw (← e, get_or-set_self servers i sv cleared l) (ground arith)
  | no n ↦ rw (get_or-set_ne servers i j sv cleared n) (ground arith)
]

last_used_before-above :
    (servers : List Server) (n i : ℕ)
    → i < n
    → is_unused_at servers i ≡ false
    → i < end_of (last_used_before servers n)
unfolding last_used_before
last_used_before-above servers zero i l h = absurd (omega arith)
last_used_before-above servers (suc n) i l h = elim (ℕ_discrete i n) [
  | yes e ↦ ground arith
  | no d ↦ ground (arith, last_used_before-above servers n i)
]

pub last_used_before-le : (servers : List Server) (n : ℕ) → end_of (last_used_before servers n) ≤ n
unfolding last_used_before
last_used_before-le servers zero = omega arith
last_used_before-le servers (suc n) = ground (arith, last_used_before-le servers n)

last_used_before-used :
    (servers : List Server) (n l : ℕ)
    → last_used_before servers n ≡ some l
    → is_unused_at servers l ≡ false
unfolding last_used_before
last_used_before-used servers zero l e = cc
last_used_before-used servers (suc n) l e = elim (Bool-cases (is_unused_at servers n)) [
  | inl unused ↦
      let same : last_used_before servers (suc n) ≡ last_used_before servers n =
        rw (unused, last_used_before) refl in
      last_used_before-used servers n l (sym same ∙ e)
  | inr used ↦
      let same : last_used_before servers (suc n) ≡ some n = rw (used, last_used_before) refl in
      subst (λ k. is_unused_at servers k ≡ false) (ground (arith, same, e)) used
]

-- Sv_Remove of a used slot keeps a well-formed server list well formed.
pub remove-IsWellFormed :
    (s : Servers) (i : ℕ)
    → IsWellFormed s
    → is_unused_at s.servers i ≡ false
    → IsWellFormed (remove s i)
unfolding remove
remove-IsWellFormed s i w h = record {
  size = length-set s.servers i gone ∙ w.size;
  small = w.small;
  counted = omega (
    arith,
    w.counted,
    w.small,
    w.size,
    count_used-free s.servers i gone h refl,
    count_used-le s.servers,
  );
  last = λ j u.
      ground (arith, w.last j, w.last i h, at j, last_used_before-above (set s.servers i gone) i j);
  last_used = λ l e. elim (Bool-cases (is_index s.last_used_slot i)) [
    | inl top ↦ last_used_before-used (set s.servers i gone) i l (moved top ∙ e)
    | inr inner ↦ stays l inner (kept inner ∙ e)
  ];
  last_inside =
      ground (arith, w.last_inside, w.last i h, last_used_before-le (set s.servers i gone) i);
  free = λ f e. ground (arith, w.free f, at f, w.size, inside);
  free_least = λ j l u. ground (arith, w.free_least j l, at j);
}
  where
    gone : Server
    gone = record (server_at s i) { state = unused_slot }

    inside : i < length s.servers
    inside = used-lt s.servers i h

    at :
        (j : ℕ)
        → is_unused_at (set s.servers i gone) j
          ≡ (if i == j then true else is_unused_at s.servers j)
    at j = is_unused_at-set s.servers i j gone inside

    moved :
        is_index s.last_used_slot i ≡ true
        → last_used_before (set s.servers i gone) i ≡ (remove s i).last_used_slot
    moved top = rw (top) refl

    kept : is_index s.last_used_slot i ≡ false → s.last_used_slot ≡ (remove s i).last_used_slot
    kept inner = rw (inner) refl

    stays :
        (l : ℕ)
        → is_index s.last_used_slot i ≡ false
        → s.last_used_slot ≡ some l
        → is_unused_at (set s.servers i gone) l ≡ false
    stays l inner e = ground (arith, at l, w.last_used l e, ap (λ x. is_index x i) (sym e) ∙ inner)

-- Sv_IsActive keeps the list well formed.
pub is_active-IsWellFormed :
    (s : Servers) (i crt_time : ℕ) → IsWellFormed s → IsWellFormed (is_active s i crt_time).0
unfolding is_active
is_active-IsWellFormed s i crt_time w = elim (Bool-cases (is_unused_at s.servers i)) [
  | inl unused ↦ rw (unused, is_active) w
  | inr used ↦ elim (Bool-cases (ltb_ℤ (server_at s i).timeout (pos crt_time))) [
    | inl late ↦ rw (used, late, is_active) (remove-IsWellFormed s i w used)
    | inr early ↦ rw (used, early, is_active) w
  ]
]

-- A property that Sv_IsActive keeps is kept by the loop of Sv_CheckTimeouts.
pub check_timeouts-keeps :
    (P : Servers → Type 0) (crt_time : ℕ)
    → ((s : Servers) (i : ℕ) → P s → P (is_active s i crt_time).0)
    → (s : Servers) → P s
    → P (check_timeouts s crt_time)
unfolding check_timeouts check_from
check_timeouts-keeps P crt_time keep s p = go s.max_nb_servers s 0 p
  where
    go : (rounds : ℕ) (s : Servers) (ind : ℕ) → P s → P (check_from rounds s ind crt_time)
    go zero s ind p = p
    go (suc rounds) s ind p = elim (Bool-cases (ltb ind (end_of s.last_used_slot))) [
      | inl more ↦
          rw (more, check_from) (go rounds (is_active s ind crt_time).0 (suc ind) (keep s ind p))
      | inr stop ↦ rw (stop, check_from) p
    ]

-- Sv_CheckTimeouts keeps a well-formed server list well formed.
pub check_timeouts-IsWellFormed :
    (s : Servers) (crt_time : ℕ) → IsWellFormed s → IsWellFormed (check_timeouts s crt_time)
check_timeouts-IsWellFormed s crt_time =
    check_timeouts-keeps IsWellFormed crt_time (λ s i. is_active-IsWellFormed s i crt_time) s

-- No server at or above a slot has timed out.
abbrev pub IsCalmFrom : Servers → ℕ → ℕ → Type 0
IsCalmFrom s k crt_time =
    (j : ℕ)
    → k ≤ j
    → is_unused_at s.servers j ≡ false
    → ltb_ℤ (server_at s j).timeout (pos crt_time) ≡ false

pub is_active_calm :
    (s : Servers) (k i crt_time : ℕ)
    → IsCalmFrom s k crt_time
    → k ≤ i
    → is_active s i crt_time ≡ (s, not (is_unused_at s.servers i))
unfolding is_active
is_active_calm s k i crt_time calm h = elim (Bool-cases (is_unused_at s.servers i)) [
  | inl unused ↦ rw (unused, is_active)
  | inr used ↦ rw (used, calm i h used, is_active)
]
