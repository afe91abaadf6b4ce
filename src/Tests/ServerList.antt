-- ===== src/Tests/ServerList.antt =====
-- The theorems on the server list at concrete lists.
use dpmaster_x.Prelude.{
  ℕ, zero, suc, ◌≡◌, ◌≢◌, refl, length, List, true, false, pos, Option, none, some, [], ◌∷◌, arith,
  get_or-replicate, end_of,
}
use dpmaster_x.Address.{Address, ipv4, address_hash}
use dpmaster_x.Users
use dpmaster_x.Games.{Policy}
use dpmaster_x.Messages.Query.{Options}
use dpmaster_x.Messages.Packet.{started}
use dpmaster_x.Messages.GetServers.{browse}
use dpmaster_x.Messages.GetServers.Rounds.{browse_rounds}
use dpmaster_x.Users.{update}
use dpmaster_x.Users.Chains.{init-IsTable, add-IsTable}
use dpmaster_x.Servers.Slots.Finds.{first_of, is_server_of, get_by_addr_internal-first_of}
use dpmaster_x.Servers.Crash.{add_server-crash}
use dpmaster_x.Servers.{server_at, uninitialized, Servers, is_active, remove, cleared}
use dpmaster_x.Servers.Lookup.{get_by_addr, get_by_addr_internal, add_server, find_free}
use dpmaster_x.Servers.Iterate.{get_first, get_next}
use dpmaster_x.Servers.Config.{init, initial, set_max_nb_servers}
use dpmaster_x.Servers.Slots.{IsWellFormed, IsCalmFrom, is_unused_at, remove-IsWellFormed}
use dpmaster_x.Servers.Slots.Search.{get_by_addr-IsWellFormed}
use dpmaster_x.Servers.Slots.Start.{init-IsWellFormed, init-Indexed}
use dpmaster_x.Servers.Slots.Indexed.{Indexed}
use dpmaster_x.Servers.Slots.Filed.{get_by_addr-Indexed}
use dpmaster_x.Servers.Slots.Known.{get_by_addr_internal-used}
use dpmaster_x.Servers.Slots.Iteration.{IsIterating}
use dpmaster_x.Servers.Slots.Yield.{IsNext, IsYield, get_first-IsYield, get_next-IsNext}

init-IsWellFormed_example : IsWellFormed (init true true (set_max_nb_servers initial 3).0).0
init-IsWellFormed_example = init-IsWellFormed 3 true (omega arith) (omega arith)

-- 10.0.0.1, port 27960
abbrev address_one : Address
address_one = ipv4 (record { s_addr = 16777226; sin_port = 14445 })

abbrev address_two : Address
address_two = ipv4 (record { s_addr = 33554442; sin_port = 14445 })

abbrev no_servers : Servers
no_servers = (init true true (set_max_nb_servers initial 3).0).0

no_servers-IsWellFormed : IsWellFormed no_servers
no_servers-IsWellFormed = init-IsWellFormed 3 true (omega arith) (omega arith)

no_servers-IsCalm : (t : ℕ) → IsCalmFrom no_servers 0 t
unfolding init set_max_nb_servers
no_servers-IsCalm t j l u = ground (arith, get_or-replicate 3 j cleared)

abbrev one_server : Servers
one_server = (get_by_addr no_servers address_one true 5).0

one_server-IsWellFormed : IsWellFormed one_server
one_server-IsWellFormed =
    get_by_addr-IsWellFormed no_servers address_one true 5 no_servers-IsWellFormed
      (λ a. no_servers-IsCalm 5)

get_by_addr-IsWellFormed_example : IsWellFormed (get_by_addr no_servers address_one true 5).0
get_by_addr-IsWellFormed_example =
    get_by_addr-IsWellFormed no_servers address_one true 5 no_servers-IsWellFormed
      (λ a. no_servers-IsCalm 5)

remove-IsWellFormed_example : IsWellFormed (remove one_server 0)
unfolding get_by_addr init Users.init add_server set_max_nb_servers find_free is_active
remove-IsWellFormed_example = remove-IsWellFormed one_server 0 one_server-IsWellFormed refl

get_first-IsYield_example :
    (r : Servers × Option ℕ) × (get_first one_server 8 6 ≡ some r) × IsYield 6 r
get_first-IsYield_example = get_first-IsYield one_server 8 6 one_server-IsWellFormed

one_server-IsCalm : IsCalmFrom one_server 0 6
unfolding get_by_addr init Users.init add_server set_max_nb_servers find_free is_active
one_server-IsCalm zero l u = refl
one_server-IsCalm (suc j) l u = absurd (omega (arith, one_server-IsWellFormed.last (suc j) u))

abbrev two_servers : Servers
two_servers = (get_by_addr one_server address_two true 6).0

two_servers-IsWellFormed : IsWellFormed two_servers
two_servers-IsWellFormed =
    get_by_addr-IsWellFormed one_server address_two true 6 one_server-IsWellFormed
      (λ a. one_server-IsCalm)

-- Between the two servers.
abbrev iterating : Servers
iterating = record two_servers { crt_server_ind = some 0; last_server_ind = some 1 }

iterating-IsWellFormed : IsWellFormed iterating
iterating-IsWellFormed = record {
  size = two_servers-IsWellFormed.size;
  small = two_servers-IsWellFormed.small;
  counted = two_servers-IsWellFormed.counted;
  last = two_servers-IsWellFormed.last;
  last_used = two_servers-IsWellFormed.last_used;
  last_inside = two_servers-IsWellFormed.last_inside;
  free = two_servers-IsWellFormed.free;
  free_least = two_servers-IsWellFormed.free_least;
}

two_servers-max : two_servers.max_nb_servers ≡ 3
unfolding get_by_addr init Users.init add_server set_max_nb_servers find_free is_active Users.add
    address_hash
two_servers-max = refl

two_servers-last : end_of two_servers.last_used_slot ≡ 2
unfolding get_by_addr init Users.init add_server set_max_nb_servers find_free is_active Users.add
    address_hash
two_servers-last = refl

iterating-IsIterating : IsIterating iterating
iterating-IsIterating = record {
  current = omega (arith, two_servers-last);
  last = omega (arith, two_servers-last);
  current_index = λ h. omega arith;
  last_index = λ h. omega arith;
}

get_next-IsNext_example : (r : Servers × Option ℕ) × (get_next iterating 6 ≡ some r) × IsNext 6 r
get_next-IsNext_example = get_next-IsNext iterating 6 iterating-IsWellFormed iterating-IsIterating

-- One server in slot 1 that has timed out, and slot 0 free.
abbrev late_server : Servers
late_server = record initial {
  servers = cleared ∷ record cleared { state = uninitialized; timeout = pos 3 } ∷ cleared ∷ [];
  max_nb_servers = 3;
  nb_servers = 1;
  last_used_slot = some 1;
  first_free_slot = some 0;
  allow_loopback = true;
}

late_server-others : (k : ℕ) → k ≢ 1 → is_unused_at late_server.servers k ≡ true
late_server-others zero n = refl
late_server-others (suc zero) n = absurd (n refl)
late_server-others (suc (suc zero)) n = refl
late_server-others (suc (suc (suc k))) n = refl

add_server-crash_example : get_first (add_server late_server address_one 0 9).0 7 10 ≡ none
add_server-crash_example =
    add_server-crash late_server 0 address_one 9 7 10 refl refl refl (omega arith)
      late_server-others refl refl refl

abbrev accepting : Policy
accepting = record { game_names = []; reject_when_known = true }

abbrev all_servers : Options
all_servers = record {
  opt_empty = true;
  opt_full = true;
  opt_ipv4 = true;
  opt_ipv6 = false;
  opt_gametype = false;
  gametype = [];
}

browse_rounds_example :
    browse 9 accepting false (pos 0) all_servers 6 [] (started false) iterating (some 0)
    ≡ browse
        (suc iterating.max_nb_servers)
        accepting
        false
        (pos 0)
        all_servers
        6
        []
        (started false)
        iterating
        (some 0)
browse_rounds_example =
    browse_rounds accepting false (pos 0) all_servers 6 9 [] (started false) iterating (some 0)
      (omega (arith, two_servers-max)) iterating-IsWellFormed (λ i e. iterating-IsIterating)

-- The first server stands alone in its chain.
abbrev known_server : Servers
known_server = record initial {
  servers =
      record cleared { address = address_one; state = uninitialized; timeout = pos 30 }
      ∷ cleared
      ∷ [];
  users = Users.add Users.init 0 (address_hash false address_one 10);
  max_nb_servers = 2;
  nb_servers = 1;
  last_used_slot = some 0;
  first_free_slot = some 1;
}

abbrev known_chains : ℕ → List ℕ
known_chains = update (λ h. []) (address_hash false address_one 10) (0 ∷ [])

known_chains-length : length (known_chains (address_hash false address_one 10)) ≡ 1
unfolding address_hash
known_chains-length = refl

known_server-IsCalm : IsCalmFrom known_server 0 20
known_server-IsCalm zero l u = refl
known_server-IsCalm (suc zero) l u = cc
known_server-IsCalm (suc (suc j)) l u = cc

get_by_addr_internal-first_of_example :
    (get_by_addr_internal known_server address_one 20).server
    ≡ first_of known_server address_one (known_chains (address_hash false address_one 10))
get_by_addr_internal-first_of_example =
    get_by_addr_internal-first_of known_server address_one 20 known_chains
      (add-IsTable init-IsTable (address_hash false address_one 10) 0 (λ k. refl))
      (omega (arith, known_chains-length)) known_server-IsCalm

one_server-Indexed : Indexed one_server
one_server-Indexed =
    get_by_addr-Indexed no_servers address_one true 5 no_servers-IsWellFormed
      (init-Indexed (set_max_nb_servers initial 3).0 true)

get_by_addr_internal-used_example :
    (j : ℕ) × ((get_by_addr_internal one_server (server_at one_server 0).address 6).server ≡ some j)
    × (is_server_of one_server (server_at one_server 0).address j ≡ true)
unfolding get_by_addr init Users.init add_server set_max_nb_servers find_free is_active
get_by_addr_internal-used_example =
    get_by_addr_internal-used one_server 6 0 one_server-Indexed.0 one_server-IsWellFormed
      one_server-IsCalm one_server-Indexed.1 refl
