-- ===== src/Servers/Slots/Allocate.antt =====
-- src/servers.c: the end of Sv_GetByAddr, which fills the first free slot, and well-formedness.
use native.Mathlib.Decide.{ℕ_discrete}
use dpmaster_x.Prelude.{
  ℕ, zero, suc, ◌+◌, ◌^◌, ◌%◌, ◌≤◌, ◌<◌, ◌≡◌, refl, ap, ◌∙◌, inl, inr, true, false, none, some,
  arith, length, set, ltb, ◌==◌, if◌then◌else◌, Index, end_of, Bool-cases, length-set,
}
use dpmaster_x.Address.{Address, address_hash}
use dpmaster_x.Users
use dpmaster_x.Servers.{Server, Servers}
use dpmaster_x.Servers.Lookup.{find_free, allocate, new_server}
use dpmaster_x.Servers.Slots.{
  IsWellFormed, IsCalmFrom, Reaches, is_unused_at, count_used-take, count_used-le, is_unused_at-set,
  is_active_calm,
}

-- The first free slot from `k` on, or -1.
pub record IsFirstFree (s : Servers) (k : ℕ) (r : Index) : Type 0 where
  pub free :
      (f : ℕ) → r ≡ some f → (k ≤ f) × (f < s.max_nb_servers) × (is_unused_at s.servers f ≡ true)
  pub least : (j : ℕ) → k ≤ j → j < s.max_nb_servers → is_unused_at s.servers j ≡ true → Reaches r j

-- Without timed-out servers on the way the loop only sets `first_free_slot`.
pub find_free-IsFirstFree :
    (rounds : ℕ) (s : Servers) (k crt_time : ℕ)
    → s.max_nb_servers ≤ k + rounds
    → s.first_free_slot ≡ none
    → IsCalmFrom s k crt_time
    → (r : Index) × (find_free rounds s k crt_time ≡ record s { first_free_slot = r })
      × IsFirstFree s k r
unfolding find_free
find_free-IsFirstFree zero s k crt_time h e calm = (
  none,
  (λ i. record s { first_free_slot = e i }),
  record { free = λ f g. cc; least = λ j l m u. absurd (omega arith) },
)
find_free-IsFirstFree (suc rounds) s k crt_time h e calm =
    elim (Bool-cases (ltb k s.max_nb_servers)) [
      | inr stop ↦ (
        none,
        rw (stop, find_free) (λ i. record s { first_free_slot = e i }),
        record { free = λ f g. cc; least = λ j l m u. absurd (ground arith) },
      )
      | inl more ↦ elim (Bool-cases (is_unused_at s.servers k)) [
        | inl unused ↦ (
          some k,
          rw (more, is_active_calm s k k crt_time calm (omega arith), unused, find_free) refl,
          record { free = λ f g. ground arith; least = λ j l m u. l },
        )
        | inr used ↦
            let (r, run, first) =
              find_free-IsFirstFree rounds s (suc k) crt_time (omega arith) e
                (λ j l. calm j (omega arith)) in
            (
              r,
              rw (more, is_active_calm s k k crt_time calm (omega arith), used, find_free) run,
              record {
                free = λ f g. ground (arith, first.free f);
                least = λ j l m u. elim (ℕ_discrete k j) [
                  | yes same ↦ absurd (ground (arith, ap (is_unused_at s.servers) same))
                  | no other ↦ first.least j (omega arith) m u
                ];
              },
            )
      ]
    ]

-- The end of Sv_GetByAddr takes the first free slot and finds the next one.
pub allocate-IsWellFormed :
    (s : Servers) (i : ℕ) (address : Address) (crt_time : ℕ)
    → IsWellFormed s
    → s.first_free_slot ≡ some i
    → IsCalmFrom s (suc i) crt_time
    → IsWellFormed (allocate s i address crt_time)
unfolding allocate
allocate-IsWellFormed s i address crt_time w e calm =
    let (r, run, first) =
      find_free-IsFirstFree s.max_nb_servers raised (suc i) crt_time (omega arith) refl calm in
    rw (run, allocate) (filled r first)
  where
    raised : Servers
    raised = record s {
      last_used_slot = if ltb (end_of s.last_used_slot) (suc i) then some i else s.last_used_slot;
      first_free_slot = none;
    }

    sv : Server
    sv = new_server s address crt_time

    found : Index → Servers
    found r = record raised { first_free_slot = r }

    inside : i < length s.servers
    inside = omega (arith, (w.free i e).0, w.size)

    at :
        (j : ℕ)
        → is_unused_at (set s.servers i sv) j ≡ (if i == j then false else is_unused_at s.servers j)
    at j = is_unused_at-set s.servers i j sv inside

    filled :
        (r : Index)
        → IsFirstFree raised (suc i) r
        → IsWellFormed (record (found r) {
          servers = set s.servers i sv;
          users = Users.add s.users i (address_hash s.hash_ports address s.sv_hash_size);
          nb_servers = (s.nb_servers + 1) % 2 ^ 32;
        })
    filled r first = record {
      size = length-set s.servers i sv ∙ w.size;
      small = w.small;
      counted = omega (
        arith,
        w.counted,
        w.small,
        w.size,
        count_used-take s.servers i sv inside (w.free i e).1 refl,
        count_used-le s.servers,
      );
      last = λ j u. ground (arith, w.last j, at j);
      last_used = λ l e'. ground (arith, w.last_used l, at l, e');
      last_inside = ground (arith, w.last_inside, w.free i e);
      free = λ f g. ground (arith, first.free f g, at f);
      free_least = λ j l u. ground (arith, first.least j, w.free_least j l, at j, e);
    }
