-- ===== src/Tests/Queries.antt =====
-- The theorems on the iteration and on getservers queries at a list that was loaded.
use dpmaster_x.Prelude.{
  zero, suc, false, end_of, ℕ, ◌≡◌, refl, true, false, pos, some, List, [], ◌++◌, arith,
  if◌then◌else◌,
}
use mathlib.Core.Bool.{xor}
use dpmaster_x.Text.{codes, c_string, strcmp, is_space, strtol, before_char}
use dpmaster_x.Text.Scan.{scan_ulong, scan_unsigned, scan_int, scan_string, lines_of}
use dpmaster_x.Address.{Address, ipv4, address_hash, is_same_address}
use dpmaster_x.Users
use dpmaster_x.Games.{Policy, is_accepted, find, search_from}
use dpmaster_x.Properties.{empty, no_options, get_anonymous, find_name}
use dpmaster_x.Properties.Lookups.{get_options, get_properties}
use dpmaster_x.Servers.{Servers, is_active}
use dpmaster_x.Servers.Lookup.{get_by_addr, add_server, find_free}
use dpmaster_x.Servers.Addrmap.{get_addrmap}
use dpmaster_x.Servers.Slots.Yield.{started_at, started_at-IsWellFormed, started_at-IsIterating}
use dpmaster_x.Servers.Config.{init, initial, set_max_nb_servers}
use dpmaster_x.Servers.Slots.{is_unused_at}
use dpmaster_x.Servers.Slots.Start.{init-IsWellFormed, init-IsCalm, init-Indexed}
use dpmaster_x.Servers.Slots.Visits.{iterate, occurrences, iterate-occurrences}
use dpmaster_x.Servers.State.{StateFile, scan_fields, load_state, magic_line}
use dpmaster_x.Servers.State.Safe.{IsReady, IsTimely, load_state-IsReady}
use dpmaster_x.Clients.{blocked_by_throttle}
use dpmaster_x.Messages.Limiter
use dpmaster_x.Messages.Master.{Master}
use dpmaster_x.Messages.Packet.{started}
use dpmaster_x.Messages.Query.{Header, parse_header, Options}
use dpmaster_x.Messages.GetServers.{browse, handle_get_servers}
use dpmaster_x.Messages.GetServers.Browse.{IsBrowsed, browse-IsBrowsed}
use dpmaster_x.Messages.GetServers.Listing.{response, handle_get_servers-lists}
use dpmaster_x.Startup.{initial_clients}
use dpmaster_x.Tests.StateFile.{one_address}

abbrev accepting : Policy
accepting = record { game_names = []; reject_when_known = true }

abbrev file : StateFile
file = record {
  path = some (codes "state");
  contents = some (magic_line ++ codes "1000 4 10.0.0.1 27960 68 3 Quake3Arena 0\n");
}

abbrev loaded : Servers
loaded =
    (load_state one_address accepting (empty 0) true 300 file
      (init true true (set_max_nb_servers initial 3).0).0).0

file-IsTimely : IsTimely file.contents
unfolding lines_of scan_fields c_string scan_ulong scan_unsigned scan_int scan_string strcmp
    is_space
file-IsTimely = (tt, (omega arith, tt))

loaded-IsReady : IsReady 300 loaded
loaded-IsReady =
    load_state-IsReady one_address accepting (empty 0) 300 true file
      (init true true (set_max_nb_servers initial 3).0).0 file-IsTimely
      (
        init-IsWellFormed 3 true (omega arith) (omega arith),
        init-IsCalm (set_max_nb_servers initial 3).0 true 300,
        init-Indexed (set_max_nb_servers initial 3).0 true,
      )

iterate-occurrences_example :
    occurrences 0 (iterate loaded 8 300) ≡ (if is_unused_at loaded.servers 0 then 0 else 1)
iterate-occurrences_example = iterate-occurrences loaded 8 300 0 loaded-IsReady.0 loaded-IsReady.1

loaded-used : is_unused_at loaded.servers 0 ≡ false
unfolding load_state init set_max_nb_servers get_by_addr scan_ulong scan_unsigned scan_int
    scan_string lines_of is_accepted get_properties strcmp c_string address_hash is_same_address
    get_addrmap Users.add find_free xor find search_from Users.init add_server is_active
loaded-used = refl

loaded-last : end_of loaded.last_used_slot ≡ 1
unfolding load_state init set_max_nb_servers get_by_addr scan_ulong scan_unsigned scan_int
    scan_string lines_of is_accepted get_properties strcmp c_string address_hash is_same_address
    get_addrmap Users.add find_free xor find search_from Users.init add_server is_active
loaded-last = refl

abbrev all_servers : Options
all_servers = record {
  opt_empty = true;
  opt_full = true;
  opt_ipv4 = true;
  opt_ipv6 = false;
  opt_gametype = false;
  gametype = [];
}

-- The loaded server is listed.
browse-IsBrowsed_example :
    IsBrowsed
      (started_at loaded 0).servers
      false
      (pos 68)
      all_servers
      (codes "Quake3Arena")
      (started false)
      (browse 4 accepting false
        (pos 68)
        all_servers
        301
        (codes "Quake3Arena")
        (started false)
        (started_at loaded 0)
        (some 0))
unfolding started_at
browse-IsBrowsed_example =
    browse-IsBrowsed 4 accepting false (pos 68) all_servers 301 (codes "Quake3Arena")
      (started false) (started_at loaded 0) (some 0)
      (started_at-IsWellFormed loaded 0 loaded-IsReady.0)
      (λ i e. (started_at-IsIterating loaded 0 (omega (arith, loaded-last)), used_first i e))
  where
    used_first : (i : ℕ) → some 0 ≡ some i → is_unused_at (started_at loaded 0).servers i ≡ false
    used_first zero e = loaded-used
    used_first (suc i) e = cc

abbrev master : Master
master = record {
  servers = loaded;
  clients = initial_clients;
  policy = accepting;
  registry = empty 0;
  limits = Limiter.initial;
}

abbrev asker : Address
asker = ipv4 (record { s_addr = 33554442; sin_port = 14445 })

abbrev header : Header
header = record {
  gamename = codes "Quake3Arena";
  protocol = pos 68;
  game_options = no_options;
  msg_ptr = codes " 68 full";
}

handle_get_servers-lists_example :
    (slots : List ℕ) × ((i : ℕ)
      → occurrences i slots ≡ (if is_unused_at loaded.servers i then 0 else 1))
    × (s : Servers) × (handle_get_servers master (codes "Quake3Arena 68 full") asker false 8 300
        ≡ some (
          record master {
            servers = s;
            clients = (blocked_by_throttle initial_clients asker 300).0;
          },
          response master header asker false slots,
        ))
unfolding blocked_by_throttle parse_header is_accepted strtol before_char get_options get_anonymous
    find_name xor find search_from
handle_get_servers-lists_example =
    handle_get_servers-lists master (codes "Quake3Arena 68 full") asker false 8 300 header
      loaded-IsReady.0 loaded-IsReady.1 refl refl refl refl
