-- ===== src/Clients/Slots.antt =====
-- src/clients.c: the slots that Cl_AddClient looks at.
use native.Mathlib.Nat.{
  mod-eq_of_lt, mod-eq-sub-mod, mod-add-mod, mod-lt, add-mod-mod, add-mod_right, add-zero,
}
use dpmaster_x.Prelude.{
  ℕ, zero, suc, ◌+◌, ◌-◌, ◌%◌, ◌≤◌, ◌<◌, ◌≡◌, ap, ◌∙◌, ◌≢◌, inl, inr, ◌↔◌, true, false, none, some,
  arith, is_some, Option-cases, end_of,
}
use native.Mathlib.Decide.{ℕ_discrete}
use dpmaster_x.Address.{Address}
use dpmaster_x.Clients.{Clients, client_at, query_throttle_decay, free_slot_from, add_client}

-- A slot in use whose client has not decayed to 0.
abbrev pub IsBusy : Clients → ℕ → ℕ → Type 0
IsBusy c crt_time i =
    (is_some (c.users.prev_ptr i) ≡ true)
    × (query_throttle_decay c.fp_decay_time (client_at c i) crt_time ≢ 0)

-- The slot that is `k` behind another one, and the one behind that.
pub next_slot :
    (max first k : ℕ) → first < max → ((first + k) % max + 1) % max ≡ (first + suc k) % max
next_slot max first k h =
    let e : first + k + 1 ≡ first + suc k = omega arith in
    mod-add-mod (first + k) max 1 ∙ ap (λ (t : ℕ). t % max) e

pub slot_round : (max first k : ℕ) → first < max → suc k < max → (first + suc k) % max ≢ first
slot_round max first k h l e = grind (arith, mod-eq_of_lt, mod-eq-sub-mod)

module _ (c : Clients) (crt_time first : ℕ) (inside : first < c.max_nb_clients) where
  -- The loop gives up only behind the last slot, having seen that all the others are busy.
  free_slot-none :
      (rounds k : ℕ)
      → k + rounds ≡ c.max_nb_clients
      → free_slot_from c crt_time first rounds ((first + k) % c.max_nb_clients) ≡ none
      → (j : ℕ) → k ≤ j
      → j < c.max_nb_clients
      → IsBusy c crt_time ((first + j) % c.max_nb_clients)
  unfolding free_slot_from
  free_slot-none zero k e n j lo hi = absurd (omega arith)
  free_slot-none (suc rounds) k e n j lo hi =
      let here : IsBusy c crt_time ((first + k) % c.max_nb_clients) = ground arith in
      elim (ℕ_discrete k j) [
        | yes same ↦ rw (← same) here
        | no other ↦
            let step = next_slot c.max_nb_clients first k inside in
            let apart = slot_round c.max_nb_clients first k inside (omega arith) in
            let rest : free_slot_from c crt_time first rounds ((first + suc k) % c.max_nb_clients)
                ≡ none =
              ground (arith, step, apart) in
            free_slot-none rounds (suc k) (omega arith) rest j (omega arith) hi
      ]

-- A slot that the loop finds is not busy.
free_slot-some :
    (c : Clients) (crt_time first rounds slot found : ℕ)
    → free_slot_from c crt_time first rounds slot ≡ some found
    → ¬ IsBusy c crt_time found
unfolding free_slot_from
free_slot-some c crt_time first zero slot found e b = cc
free_slot-some c crt_time first (suc rounds) slot found e b =
    ground (arith, free_slot-some c crt_time first rounds ((slot + 1) % c.max_nb_clients) found)

free_slot-lt :
    (c : Clients) (crt_time first rounds slot found : ℕ)
    → slot < c.max_nb_clients
    → free_slot_from c crt_time first rounds slot ≡ some found
    → found < c.max_nb_clients
unfolding free_slot_from
free_slot-lt c crt_time first zero slot found l e = cc
free_slot-lt c crt_time first (suc rounds) slot found l e = ground (
  arith,
  free_slot-lt c crt_time first rounds ((slot + 1) % c.max_nb_clients) found
      (mod-lt (slot + 1) (omega arith)),
)

-- Some number of rounds leads to each slot.
slot_reached :
    (max first i : ℕ) → first < max → i < max → (first + (i + (max - first)) % max) % max ≡ i
slot_reached max first i h l =
    let e : first + (i + (max - first)) ≡ i + max = omega arith in
    add-mod-mod first (i + (max - first)) max
    ∙ ap (λ (t : ℕ). t % max) e
    ∙ add-mod_right i max
    ∙ mod-eq_of_lt l

-- With at least one slot, Cl_AddClient fails exactly if every slot is busy, that is, in use by a
-- client whose count has not decayed to 0.
pub add_client-full :
    (c : Clients) (address : Address) (crt_time : ℕ)
    → 0 < c.max_nb_clients
    → ((add_client c address crt_time).1 ≡ false)
      ↔ ((i : ℕ) → i < c.max_nb_clients → IsBusy c crt_time i)
unfolding add_client
add_client-full c address crt_time h = (full, busy)
  where
    max : ℕ
    max = c.max_nb_clients

    first : ℕ
    first = end_of c.last_used_slot % max

    inside : first < max
    inside = mod-lt (end_of c.last_used_slot) h

    start : (first + 0) % max ≡ first
    start = rw (add-zero first) (mod-eq_of_lt inside)

    full : (add_client c address crt_time).1 ≡ false → (i : ℕ) → i < max → IsBusy c crt_time i
    full f i l =
        let e : free_slot_from c crt_time first max first ≡ none = ground arith in
        rw (slot_reached max first i inside l) at (
          free_slot-none c crt_time first inside max 0 (omega arith) (rw start e)
            ((i + (max - first)) % max) (omega arith) (mod-lt (i + (max - first)) h))

    busy : ((i : ℕ) → i < max → IsBusy c crt_time i) → (add_client c address crt_time).1 ≡ false
    busy b = elim (Option-cases (free_slot_from c crt_time first max first)) [
      | inl e ↦ rw (e, add_client)
      | inr (found, e) ↦ absurd (
          free_slot-some c crt_time first max first found e
            (b found (free_slot-lt c crt_time first max first found inside e)))
    ]
