-- ===== src/Servers/Crash.antt =====
-- src/servers.c: Sv_GetByAddr where it removes a timed-out server while it looks for a free slot.
use dpmaster_x.Prelude.{
  ltb_ℤ, pos, ℕ, zero, suc, ◌+◌, ◌-◌, ◌^◌, ◌%◌, ◌<◌, ◌≡◌, refl, ap, ◌≢◌, true, false, not, none,
  some, List, arith, set, ltb, ◌==◌, if◌then◌else◌, end_of, get_or-set_ne,
}
use dpmaster_x.Address.{Address}
use dpmaster_x.Servers.{
  Server, Servers, server_at, is_active, remove, unused_slot, cleared, last_used_before,
}
use dpmaster_x.Servers.Lookup.{add_server, allocate, find_free, over_quota}
use dpmaster_x.Servers.Iterate.{get_first, modulo}
use dpmaster_x.Servers.Slots.{is_unused_at}

last_used_before-none :
    (servers : List Server) (n : ℕ)
    → ((k : ℕ) → k < n → is_unused_at servers k ≡ true)
    → last_used_before servers n ≡ none
unfolding last_used_before
last_used_before-none servers zero h = refl
last_used_before-none servers (suc n) h =
    rw (h n (omega arith)) (last_used_before-none servers n (λ k l. h k (omega arith)))

-- Removing the only server leaves no last used slot.
remove_only :
    (s : Servers) (j : ℕ)
    → s.last_used_slot ≡ some j
    → ((k : ℕ) → k ≢ j → is_unused_at s.servers k ≡ true)
    → (remove s j).last_used_slot ≡ none
unfolding remove
remove_only s j e h =
    rw (e, same)
      (last_used_before-none (set s.servers j (record (server_at s j) { state = unused_slot })) j
        (λ k l.
          rw
            (get_or-set_ne s.servers j k (record (server_at s j) { state = unused_slot }) cleared
              (omega arith))
            (h k (omega arith))))
  where
    same : (j == j) ≡ true
    same = ground arith

remove-nb_servers :
    (s : Servers) (j : ℕ) → (remove s j).nb_servers ≡ (s.nb_servers + (2 ^ 32 - 1)) % 2 ^ 32
unfolding remove
remove-nb_servers s j = refl

-- The loop of Sv_GetByAddr stops where it has removed the server.
find_free_late :
    (rounds : ℕ) (s : Servers) (j crt_time : ℕ)
    → 0 < rounds
    → j < s.max_nb_servers
    → is_unused_at s.servers j ≡ false
    → ltb_ℤ (server_at s j).timeout (pos crt_time) ≡ true
    → find_free rounds s j crt_time ≡ record (remove s j) { first_free_slot = some j }
unfolding find_free is_active
find_free_late zero s j crt_time p l u late = absurd (omega arith)
find_free_late (suc rounds) s j crt_time p l u late = rw (inside, u, timed_out) refl
  where
    inside : ltb j s.max_nb_servers ≡ true
    inside = ground arith

    timed_out : ltb_ℤ (server_at s j).timeout (pos crt_time) ≡ true
    timed_out = ground arith

get_first-none :
    (s : Servers) (rand crt_time : ℕ)
    → s.nb_servers ≡ 1
    → s.last_used_slot ≡ none
    → get_first s rand crt_time ≡ none
unfolding get_first modulo
get_first-none s rand crt_time n e = rw (n, e) refl

-- The new server is entered, but stands above the last used slot.
allocate_late :
    (s : Servers) (i : ℕ) (address : Address) (crt_time : ℕ)
    → s.last_used_slot ≡ some (suc i)
    → s.nb_servers ≡ 1
    → suc i < s.max_nb_servers
    → ((k : ℕ) → k ≢ suc i → is_unused_at s.servers k ≡ true)
    → is_unused_at s.servers (suc i) ≡ false
    → ltb_ℤ (server_at s (suc i)).timeout (pos crt_time) ≡ true
    → ((allocate s i address crt_time).last_used_slot ≡ none)
      × ((allocate s i address crt_time).nb_servers ≡ 1)
unfolding allocate
allocate_late s i address crt_time last one room others used late =
    rw
      (
        find_free_late s.max_nb_servers raised (suc i) crt_time (omega arith) room used late,
        allocate,
      )
      (remove_only raised (suc i) kept_last others, rw (remove-nb_servers raised (suc i), one) refl)
  where
    below : ltb (suc (suc i)) (suc i) ≡ false
    below = ground arith

    raised : Servers
    raised = record s {
      last_used_slot = if ltb (end_of s.last_used_slot) (suc i) then some i else s.last_used_slot;
      first_free_slot = none;
    }

    kept_last : raised.last_used_slot ≡ some (suc i)
    kept_last = rw (last, below) refl

-- If the only server stands in the slot behind the first free one and has timed out, with
-- loopback addresses allowed, then adding a new server leaves a list on which the next
-- Sv_GetFirst divides by zero, whatever rand returns.
pub add_server-crash :
    (s : Servers) (i : ℕ) (address : Address) (crt_time rand later : ℕ)
    → s.first_free_slot ≡ some i
    → s.last_used_slot ≡ some (suc i)
    → s.nb_servers ≡ 1
    → suc i < s.max_nb_servers
    → ((k : ℕ) → k ≢ suc i → is_unused_at s.servers k ≡ true)
    → is_unused_at s.servers (suc i) ≡ false
    → ltb_ℤ (server_at s (suc i)).timeout (pos crt_time) ≡ true
    → s.allow_loopback ≡ true
    → get_first (add_server s address 0 crt_time).0 rand later ≡ none
unfolding add_server
add_server-crash s i address crt_time rand later first last one room others used late loopback =
    let (gone, nb) = allocate_late s i address crt_time last one room others used late in
    rw (entered) (get_first-none (allocate s i address crt_time) rand later nb gone)
  where
    within : over_quota s 0 ≡ false
    within = ground arith

    anywhere : not s.allow_loopback ≡ false
    anywhere = ap not loopback

    not_full : (s.nb_servers == s.max_nb_servers) ≡ false
    not_full = ground arith

    entered : add_server s address 0 crt_time ≡ (allocate s i address crt_time, some i)
    entered = simp (within, anywhere, not_full, first, add_server)
