-- ===== src/Clients/Rate.antt =====
-- The rate that the flood protection enforces on one client that is in its chain.
use dpmaster_x.Prelude.{
  get_or-ge, sym, ap, ◌∙◌, ℕ, zero, suc, ◌+◌, ◌-◌, ◌*◌, ◌/◌, ◌^◌, ◌≤◌, ◌<◌, ◌≡◌, refl, inl, inr,
  true, false, Option, none, some, arith, if◌then◌else◌, Bool-cases, List, [], ◌∷◌, length, set,
  get_or-set_self, get_or-set_ne, length-set, ℤ, pos_part,
}
use native.Mathlib.Nat.{div-le_self, div-mul-le_self, mul-le-mul_right}
use native.Mathlib.Decide.{ℕ_discrete, dec_lt}
use dpmaster_x.Address.{Address, address_hash}
use dpmaster_x.Clients.{
  cleared, Clients, Client, slots, client_at, touch, reaches_throttle, query_throttle_decay,
  find_client, query_client, blocked_by_throttle,
}

-- The number of requests that are let through, of those that `addr` makes at these times.
pub requests_allowed : Clients → Address → List ℕ → ℕ
requests_allowed c addr [] = 0
requests_allowed c addr (t ∷ ts) =
    let r = blocked_by_throttle c addr t in
    let rest = requests_allowed r.0 addr ts in if r.1 then rest else suc rest

-- The times do not decrease from `from` on, and end at `to`.
abbrev pub Ordered : ℕ → List ℕ → ℕ → Type 0
Ordered from [] to = from ≤ to
Ordered from (t ∷ ts) to = (from ≤ t) × Ordered t ts to

-- What `addr` finds in its chain.
abbrev pub found_at : Clients → Address → Option ℕ
found_at c addr =
    find_client c addr c.max_nb_clients
      (c.users.entries (address_hash c.hash_ports addr c.cl_hash_size))

decay-le :
    (d : ℕ) (client : Client) (t : ℕ)
    → 0 < d
    → client.last_time ≤ t
    → t - client.last_time < 2 ^ 31
    → client.count * d ≤ query_throttle_decay d client t * d + (t - client.last_time)
unfolding query_throttle_decay
decay-le d client t p l s =
    let q = (t - client.last_time) / d in
    let small : q ≤ t - client.last_time = div-le_self (t - client.last_time) d in
    let paid : q * d ≤ t - client.last_time = div-mul-le_self (t - client.last_time) d in
    let e : query_throttle_decay d client t ≡ client.count - q = ground arith in
    rw e (counted client.count d q (t - client.last_time) paid)
  where
    counted : (n d q s : ℕ) → q * d ≤ s → n * d ≤ (n - q) * d + s
    counted n d q s h =
        let split : n ≤ n - q + q = omega arith in
        let times : n * d ≤ (n - q + q) * d = mul-le-mul_right d split in omega arith

module _ (c : Clients) (i count last_time : ℕ) where
  touch_address :
      (j : ℕ) → (client_at (touch c i count last_time) j).address ≡ (client_at c j).address
  unfolding touch
  touch_address j = elim (ℕ_discrete i j) [
    | yes same ↦ rw (← same) (elim (dec_lt i (length (slots c))) [
      | yes l ↦ ap (λ (k : Client). k.address) (get_or-set_self (slots c) i _ cleared l)
      | no g ↦
          ap (λ (k : Client). k.address)
            (get_or-ge (set (slots c) i _) i cleared (rw length-set (omega arith))
              ∙ sym (get_or-ge (slots c) i cleared (omega arith)))
    ])
    | no other ↦ ap (λ (k : Client). k.address) (get_or-set_ne (slots c) i j _ cleared other)
  ]

  find_client-touch :
      (addr : Address) (rounds : ℕ) (cur : Option ℕ)
      → find_client (touch c i count last_time) addr rounds cur ≡ find_client c addr rounds cur
  unfolding find_client touch
  find_client-touch addr rounds none = refl
  find_client-touch addr zero (some j) = refl
  find_client-touch addr (suc rounds) (some j) =
      rw (touch_address j, find_client-touch addr rounds (c.users.next j))

  found_at-touch : (addr : Address) → found_at (touch c i count last_time) addr ≡ found_at c addr
  unfolding touch
  found_at-touch addr =
      find_client-touch addr c.max_nb_clients
        (c.users.entries (address_hash c.hash_ports addr c.cl_hash_size))

  client_at-touch :
      i < length (slots c)
      → client_at (touch c i count last_time) i
        ≡ record { address = (client_at c i).address; count = count; last_time = last_time }
  unfolding touch
  client_at-touch l = get_or-set_self (slots c) i _ cleared l

  length-touch : length (slots (touch c i count last_time)) ≡ length (slots c)
  unfolding touch
  length-touch = length-set (slots c) i _

-- The client at `i` is the one that `addr` finds, and the limits are in force.
pub record Limits (c : Clients) (addr : Address) (i : ℕ) : Type 0 where
  pub enabled : c.flood_protection ≡ true
  pub found : found_at c addr ≡ some i
  pub inside : i < length (slots c)
  pub decays : 0 < c.fp_decay_time
  pub below : (client_at c i).count < pos_part c.fp_throttle

blocked-query :
    (c : Clients) (addr : Address) (i t : ℕ)
    → Limits c addr i
    → blocked_by_throttle c addr t ≡ query_client c i t
unfolding blocked_by_throttle
blocked-query c addr i t l = ground (arith, l.found, l.enabled)

touch-Limits :
    (c : Clients) (addr : Address) (i n t : ℕ)
    → Limits c addr i
    → n < pos_part c.fp_throttle
    → Limits (touch c i n t) addr i
touch-Limits c addr i n t l h = record {
  enabled = (unfold touch in l.enabled);
  found = found_at-touch c i n t addr ∙ l.found;
  inside = rw (length-touch c i n t) l.inside;
  decays = (unfold touch in l.decays);
  below = rw (client_at-touch c i n t l.inside) (unfold touch in h);
}

below-le : {n m : ℕ} → n < m → n ≤ m - 1
below-le h = omega arith

free-lt : (n : ℕ) (throttle : ℤ) → reaches_throttle n throttle ≡ false → n < pos_part throttle
free-lt n throttle h = ground arith

query-blocked :
    (c : Clients) (i t : ℕ)
    → reaches_throttle (query_throttle_decay c.fp_decay_time (client_at c i) t + 1) c.fp_throttle
      ≡ true
    → query_client c i t ≡ (c, true)
unfolding query_client
query-blocked c i t h = rw h

query-free :
    (c : Clients) (i t : ℕ)
    → reaches_throttle (query_throttle_decay c.fp_decay_time (client_at c i) t + 1) c.fp_throttle
      ≡ false
    → query_client c i t
      ≡ (touch c i (query_throttle_decay c.fp_decay_time (client_at c i) t + 1) t, false)
unfolding query_client
query-free c i t h = rw h

Ordered-weaken : (a b : ℕ) (ts : List ℕ) (to : ℕ) → a ≤ b → Ordered b ts to → Ordered a ts to
Ordered-weaken a b [] to h o = omega arith
Ordered-weaken a b (t ∷ ts) to h o = (omega arith, o.1)

Ordered-le : (a : ℕ) (ts : List ℕ) (to : ℕ) → Ordered a ts to → a ≤ to
Ordered-le a [] to o = o
Ordered-le a (t ∷ ts) to o = omega (arith, Ordered-le t ts to o.1)

-- The flood protection bounds the requests of a client that is in its chain below the throttle
-- limit, with the protection enabled and a decay time above 0: of the requests at times that do
-- not decrease, over less than 2^31 seconds, those let through and the count that the client
-- starts with, times the decay time, are at most the limit less one, times the decay time, and
-- the seconds that pass.
pub requests_allowed-le :
    (c : Clients) (addr : Address) (i : ℕ) (ts : List ℕ) (to : ℕ)
    → Limits c addr i
    → Ordered (client_at c i).last_time ts to
    → to - (client_at c i).last_time < 2 ^ 31
    → (requests_allowed c addr ts + (client_at c i).count) * c.fp_decay_time
      ≤ (pos_part c.fp_throttle - 1) * c.fp_decay_time + (to - (client_at c i).last_time)
unfolding requests_allowed touch
requests_allowed-le c addr i [] to l o s =
    omega (arith, mul-le-mul_right c.fp_decay_time (below-le l.below))
requests_allowed-le c addr i (t ∷ ts) to l o s =
    let d = c.fp_decay_time in
    let client = client_at c i in
    let n = query_throttle_decay d client t in
    elim (Bool-cases (reaches_throttle (n + 1) c.fp_throttle)) [
      | inl blocked ↦
          let e : blocked_by_throttle c addr t ≡ (c, true) =
            blocked-query c addr i t l ∙ query-blocked c i t blocked in
          rw e (requests_allowed-le c addr i ts to l (Ordered-weaken _ t ts to o.0 o.1) s)
      | inr free ↦
          let c' = touch c i (n + 1) t in
          let e : blocked_by_throttle c addr t ≡ (c', false) =
            blocked-query c addr i t l ∙ query-free c i t free in
          let at : client_at c' i
              ≡ record { address = client.address; count = n + 1; last_time = t } =
            client_at-touch c i (n + 1) t l.inside in
          let before = Ordered-le t ts to o.1 in
          let paid = decay-le d client t l.decays o.0 (omega arith) in
          let rest =
            requests_allowed-le c' addr i ts to
              (touch-Limits c addr i (n + 1) t l (free-lt (n + 1) c.fp_throttle free)) (rw at o.1)
              (rw at (omega arith)) in
          let rest' = rw at at rest in rw e (omega arith)
    ]
