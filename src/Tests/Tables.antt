-- ===== src/Tests/Tables.antt =====
-- The theorems on addresses, the hash table and the clients at concrete tables.
use dpmaster_x.Prelude.{
  pos, ℕ, ◌+◌, ◌*◌, ◌-◌, ◌≡◌, ◌<◌, ◌≤◌, ◌↔◌, refl, true, false, some, List, [], ◌∷◌, arith,
}
use dpmaster_x.Address.{Address, ipv4, address_hash, is_same_address}
use dpmaster_x.Address.Hash.{address_hash-same_public}
use dpmaster_x.Users.{Users, update}
use dpmaster_x.Users
use dpmaster_x.Users.Links.{IsTable, mem}
use dpmaster_x.Users.Chains.{init-IsTable, add-IsTable, remove-IsTable}
use dpmaster_x.Clients.{Clients, find_client, add_client}
use dpmaster_x.Clients.Slots.{add_client-full, IsBusy}
use dpmaster_x.Clients.Rate.{requests_allowed-le, requests_allowed, Limits}

abbrev address_one : Address
address_one = ipv4 (record { s_addr = 16777226; sin_port = 14445 })

abbrev same_host : Address
same_host = ipv4 (record { s_addr = 16777226; sin_port = 1 })

address_hash-same_public_example :
    address_hash false address_one 10 ≡ address_hash false same_host 10
unfolding is_same_address
address_hash-same_public_example = address_hash-same_public address_one same_host 10 refl

abbrev no_users : ℕ → List ℕ
no_users h = []

-- Users 5 and 3 in the chain of hash 2.
abbrev five : Users
five = Users.add Users.init 5 2

five-IsTable : IsTable five (update no_users 2 (5 ∷ []))
five-IsTable = add-IsTable init-IsTable 2 5 (λ k. refl)

not_three : (k : ℕ) → mem 3 (update no_users 2 (5 ∷ []) k) ≡ false
not_three k = ground arith

add-IsTable_example :
    IsTable (Users.add five 3 2) (update (update no_users 2 (5 ∷ [])) 2 (3 ∷ 5 ∷ []))
add-IsTable_example = add-IsTable five-IsTable 2 3 not_three

remove-IsTable_example :
    IsTable
      (Users.remove (Users.add five 3 2) 5)
      (update (update (update no_users 2 (5 ∷ [])) 2 (3 ∷ 5 ∷ [])) 2 (3 ∷ []))
remove-IsTable_example = remove-IsTable (add-IsTable five-IsTable 2 3 not_three) 2 5 refl

-- Two slots, the first with a client that has made two requests.
abbrev one_client : Clients
one_client = record {
  clients = some (
      record { address = address_one; count = 2; last_time = 100 }
      ∷ record { address = same_host; count = 0; last_time = 0 }
      ∷ []);
  users = Users.add Users.init 0 (address_hash false address_one 4);
  max_nb_clients = 2;
  cl_hash_size = 4;
  last_used_slot = some 0;
  fp_decay_time = 3;
  fp_throttle = pos 5;
  flood_protection = true;
  hash_ports = false;
}

one_client-Limits : Limits one_client address_one 0
unfolding find_client Users.add address_hash is_same_address
one_client-Limits = record {
  enabled = refl;
  found = refl;
  inside = omega arith;
  decays = omega arith;
  below = omega arith;
}

requests_allowed-le_example :
    (requests_allowed one_client address_one (100 ∷ 100 ∷ 101 ∷ 106 ∷ []) + 2) * 3
    ≤ (5 - 1) * 3 + (110 - 100)
requests_allowed-le_example =
    requests_allowed-le one_client address_one 0 (100 ∷ 100 ∷ 101 ∷ 106 ∷ []) 110 one_client-Limits
      (omega arith, (omega arith, (omega arith, (omega arith, omega arith)))) (omega arith)

add_client-full_example :
    ((add_client one_client same_host 101).1 ≡ false) ↔ ((i : ℕ) → i < 2 → IsBusy one_client 101 i)
add_client-full_example = add_client-full one_client same_host 101 (omega arith)
