-- ===== src/Clients.antt =====
-- src/clients.c: the client list and the flood protection. An `unsigned int` is a number below
-- 2 ^ 32; a count stays below `fp_throttle`, so that `new_count` does not overflow. `addrlen` is
-- the one that the family of the address has.
pub mod Slots
pub mod Rate
use dpmaster_x.Prelude.{
  ℕ, zero, suc, ◌+◌, ◌-◌, ◌*◌, ◌/◌, ◌%◌, ◌^◌, ◌&&◌, Bool, true, false, Option, none, some, List, [],
  ltb, leb, ◌==◌, if◌then◌else◌, get_or, set, replicate, Index, end_of, length, is_some, not, ℤ,
  pos, ltb_ℤ, int32,
}
use dpmaster_x.Address.{Address, ipv4, same_family, address_hash, is_same_address}
use dpmaster_x.Users.{Users}
use dpmaster_x.Users

-- `client_t`, less the links of its `user_t`, which stand in `Users` under the client's index.
pub record Client : Type 0 where
  pub address : Address
  pub count : ℕ
  pub last_time : ℕ

-- The variables of the file, with `hash_ports` of src/common.c.
pub record Clients : Type 0 where
  pub clients : Option (List Client)
  pub users : Users
  pub max_nb_clients : ℕ
  pub cl_hash_size : ℕ
  pub last_used_slot : Index
  pub fp_decay_time : ℕ
  pub fp_throttle : ℤ
  pub flood_protection : Bool
  pub hash_ports : Bool

-- A client that `memset` has cleared.
abbrev pub cleared : Client
cleared = record { address = ipv4 (record { s_addr = 0; sin_port = 0 }); count = 0; last_time = 0 }

abbrev pub slots : Clients → List Client
slots c = elim c.clients [ none ↦ [] | some l ↦ l ]

abbrev pub client_at : Clients → ℕ → Client
client_at c i = get_or (slots c) i cleared

-- `count - x` for the `int` x with these bits, and at least 0.
abbrev pub sub_int : ℕ → ℕ → ℕ
sub_int count bits = if ltb bits (2 ^ 31) then count - bits else count + (2 ^ 32 - bits)

-- The bits of `(int)((crt_time - last_time) / fp_decay_time)`; the division rounds towards 0.
abbrev pub decay_bits : ℕ → ℕ → ℕ → ℕ
decay_bits decay_time last_time crt_time =
    if leb last_time crt_time
    then (crt_time - last_time) / decay_time % 2 ^ 32
    else (2 ^ 32 - (last_time - crt_time) / decay_time % 2 ^ 32) % 2 ^ 32

-- Cl_QueryThrottleDecay
unfoldable pub query_throttle_decay : ℕ → Client → ℕ → ℕ
query_throttle_decay decay_time client crt_time =
    sub_int client.count (decay_bits decay_time client.last_time crt_time)

-- The loop of Cl_AddClient: the slot to use, if there is one. The slot after the last is the
-- first, and the loop ends where it started, after at most `max_nb_clients` rounds.
pub free_slot_from : Clients → ℕ → ℕ → ℕ → ℕ → Option ℕ
free_slot_from c crt_time first_slot zero slot = none
free_slot_from c crt_time first_slot (suc rounds) slot =
    let next = (slot + 1) % c.max_nb_clients in
    let rest =
      if next == first_slot then none else free_slot_from c crt_time first_slot rounds next in
    if is_some (c.users.prev_ptr slot)
    then (if query_throttle_decay c.fp_decay_time (client_at c slot) crt_time == 0
        then some slot
        else rest)
    else some slot

-- Cl_AddClient. An expired client is taken out of its chain before its slot is used again.
unfoldable pub add_client : Clients → Address → ℕ → Clients × Bool
unfolding free_slot_from
add_client c address crt_time =
    let first_slot = end_of c.last_used_slot % c.max_nb_clients in
    elim (free_slot_from c crt_time first_slot c.max_nb_clients first_slot) [
      | none ↦ (c, false)
      | some slot ↦
          let users =
            if is_some (c.users.prev_ptr slot) then Users.remove c.users slot else c.users in
          let client : Client = record { address = address; count = 1; last_time = crt_time } in
          (
            record c {
              clients = some (set (slots c) slot client);
              users = Users.add users slot (address_hash c.hash_ports address c.cl_hash_size);
              last_used_slot = some slot;
            },
            true,
          )
    ]

-- Cl_SetHashSize
unfoldable pub set_hash_size : Clients → ℕ → Clients × Bool
set_hash_size c size =
    if is_some c.clients
    then (c, false)
    else if ltb 16 size
    then (c, false)
    else (record c { cl_hash_size = size }, true)

-- Cl_SetMaxNbClients
unfoldable pub set_max_nb_clients : Clients → ℕ → Clients × Bool
set_max_nb_clients c nb =
    if is_some c.clients
    then (c, false)
    else if leb nb 0
    then (c, false)
    else (record c { max_nb_clients = nb }, true)

-- Cl_SetFPDecayTime
unfoldable pub set_fp_decay_time : Clients → ℕ → Clients × Bool
set_fp_decay_time c decay =
    if leb decay 0 then (c, false) else (record c { fp_decay_time = decay }, true)

-- Cl_SetFPThrottle; the `unsigned int` becomes an `int`.
unfoldable pub set_fp_throttle : Clients → ℕ → Clients × Bool
set_fp_throttle c throttle =
    if leb throttle 1 then (c, false) else (record c { fp_throttle = int32 throttle }, true)

-- Cl_Init; the arguments say whether the array and the hash table can be allocated.
unfoldable pub init : Bool → Bool → Clients → Clients × Bool
init array_allocated table_allocated c =
    if c.flood_protection
    then (if array_allocated
        then (
          record c {
            clients = some (replicate c.max_nb_clients cleared);
            users = Users.init;
            last_used_slot = none;
          },
          table_allocated,
        )
        else (record c { clients = none; last_used_slot = none }, false))
    else (c, true)

-- The loop of Cl_BlockedByThrottle: the first client of the chain with the same public address.
-- Every round goes to another client of the chain, so `max_nb_clients` rounds are enough.
unfoldable pub find_client : Clients → Address → ℕ → Index → Option ℕ
find_client c addr rounds none = none
find_client c addr zero (some i) = none
find_client c addr (suc rounds) (some i) =
    let rest = find_client c addr rounds (c.users.next i) in
    if same_family addr (client_at c i).address && (is_same_address addr (client_at c i).address).1
    then some i
    else rest

-- `new_count >= fp_throttle`, between two `int`s; a count is not negative.
abbrev pub reaches_throttle : ℕ → ℤ → Bool
reaches_throttle new_count throttle = not (ltb_ℤ (pos new_count) throttle)

-- `client->count = count; client->last_time = last_time;`
unfoldable pub touch : Clients → ℕ → ℕ → ℕ → Clients
touch c i count last_time =
    let client : Client = record {
      address = (client_at c i).address;
      count = count;
      last_time = last_time;
    } in
    record c { clients = some (set (slots c) i client) }

-- The body of that loop at the client that was found.
unfoldable pub query_client : Clients → ℕ → ℕ → Clients × Bool
query_client c i crt_time =
    let new_count = query_throttle_decay c.fp_decay_time (client_at c i) crt_time + 1 in
    if reaches_throttle new_count c.fp_throttle
    then (c, true)
    else (touch c i new_count crt_time, false)

-- Cl_BlockedByThrottle
unfoldable pub blocked_by_throttle : Clients → Address → ℕ → Clients × Bool
blocked_by_throttle c addr crt_time =
    if not c.flood_protection
    then (c, false)
    else (let hash = address_hash c.hash_ports addr c.cl_hash_size in
        elim (find_client c addr c.max_nb_clients (c.users.entries hash)) [
          | some i ↦ query_client c i crt_time
          | none ↦ let added = add_client c addr crt_time in (added.0, not added.1)
        ])
