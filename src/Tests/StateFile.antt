-- ===== src/Tests/StateFile.antt =====
-- The theorems on the state file at concrete files, and runs of it.
use dpmaster_x.Prelude.{
  ◌≡◌, refl, true, false, pos, none, some, [], ◌∷◌, ◌++◌, arith, if◌then◌else◌,
}
use dpmaster_x.Text.{Text, codes, str_eq, strcmp, is_space, c_string}
use dpmaster_x.Text.Print.{print_unsigned, print_int}
use dpmaster_x.Text.Scan.{scan_ulong, scan_unsigned, scan_int, scan_string, lines_of}
use dpmaster_x.Address.{ipv4, address_hash, is_same_address}
use dpmaster_x.Users
use dpmaster_x.Games
use dpmaster_x.Games.{is_accepted, find, search_from}
use dpmaster_x.Properties.Lookups.{get_properties}
use dpmaster_x.Properties.{empty}
use dpmaster_x.Servers.{Server, Servers, cleared, occupied, uninitialized, is_active, remove}
use dpmaster_x.Servers.Config.{init, initial, set_max_nb_servers}
use dpmaster_x.Servers.Lookup.{get_by_addr, add_server, find_free}
use dpmaster_x.Servers.Addrmap.{get_addrmap}
use dpmaster_x.Servers.Slots.Start.{init-IsWellFormed, init-IsCalm, init-Indexed}
use dpmaster_x.Servers.State.{
  AddressText, Fields, StateFile, scan_fields, check_fields, address_of, load_line, save_state,
  load_state, server_line, magic_line,
}
use dpmaster_x.Servers.State.Restored.{restored, load_state-save_state}
use dpmaster_x.Servers.State.Past.{load_line-past}
use dpmaster_x.Servers.State.Safe.{IsReady, IsTimely, load_state-IsReady}

-- A presentation of one address.
abbrev pub one_address : AddressText
one_address = record {
  ntop = λ a. some (codes "10.0.0.1");
  pton4 = λ t. if str_eq t (codes "10.0.0.1") then some 16777226 else none;
  pton6 = λ t. none;
}

abbrev quake : Server
quake = record cleared {
  address = ipv4 (record { s_addr = 16777226; sin_port = 14445 });
  timeout = pos 1000;
  state = occupied;
  protocol = pos 68;
  gamename = codes "Quake3Arena";
  gametype = codes "0";
}

abbrev saved : Servers
saved = record initial {
  servers = quake ∷ record cleared { state = uninitialized; timeout = pos 1000 } ∷ cleared ∷ [];
  last_used_slot = some 1;
}

quake_line :
    server_line quake (codes "10.0.0.1") ≡ codes "1000 4 10.0.0.1 27960 68 3 Quake3Arena 0\n"
unfolding server_line print_unsigned print_int
quake_line = refl

abbrev three_slots : Servers
three_slots = (init true true (set_max_nb_servers initial 3).0).0

abbrev no_file : StateFile
no_file = record { path = some (codes "state"); contents = none }

-- The validated server comes back, the other one does not.
restored_count :
    (load_state one_address Games.initial
      (empty 0)
      true
      300
      (save_state one_address true true saved 200 no_file).0
      three_slots).0.nb_servers
    ≡ 1
unfolding load_state save_state init set_max_nb_servers get_by_addr print_unsigned print_int
    scan_ulong scan_unsigned scan_int scan_string lines_of is_accepted get_properties strcmp
    c_string address_hash is_same_address get_addrmap Users.add find_free mathlib.Core.Bool.xor find
    search_from Users.init add_server is_active
restored_count = refl

load_state-save_state_example :
    load_state one_address Games.initial
      (empty 0)
      true
      300
      (save_state one_address true true saved 200 no_file).0
      three_slots
    ≡ (
      restored Games.initial
          (empty 0)
          200
          300
          three_slots
          (quake ∷ record cleared { state = uninitialized; timeout = pos 1000 } ∷ []),
      true,
    )
unfolding is_space strcmp
load_state-save_state_example =
    load_state-save_state one_address Games.initial (empty 0) 200 300 saved three_slots
      (codes "state") none
      (
        (λ h. record {
          address = codes "10.0.0.1";
          protocol = 68;
          printed = refl;
          printable = record {
            timeout = (omega arith, omega arith);
            port = omega arith;
            word = ground arith;
            has_protocol = (refl, omega arith, omega arith);
            gamename = ground arith;
            gametype = ground arith;
          };
          has_port = omega arith;
          port_bits = omega arith;
          reads_back = refl;
        }),
        ((λ h. cc), tt),
      )

abbrev two_lines : StateFile
two_lines = record {
  path = some (codes "state");
  contents = some (magic_line ++ codes "1000 4 10.0.0.1 27960 68 3 Quake3Arena 0\nx\n");
}

two_lines-IsTimely : IsTimely two_lines.contents
unfolding lines_of scan_fields c_string scan_ulong scan_unsigned scan_int scan_string strcmp
    is_space
two_lines-IsTimely = (tt, (omega arith, (tt, tt)))

load_state-IsReady_example :
    IsReady 300 (load_state one_address Games.initial (empty 0) true 300 two_lines three_slots).0
load_state-IsReady_example =
    load_state-IsReady one_address Games.initial (empty 0) 300 true two_lines three_slots
      two_lines-IsTimely
      (
        init-IsWellFormed 3 true (omega arith) (omega arith),
        init-IsCalm (set_max_nb_servers initial 3).0 true 300,
        init-Indexed (set_max_nb_servers initial 3).0 true,
      )

abbrev past_line : Text
past_line = codes "18446744073709551615 4 10.0.0.1 27960 68 3 Quake3Arena 0\n"

abbrev past_fields : Fields
past_fields = record {
  expiry = 18446744073709551615;
  family = 4;
  address_string = codes "10.0.0.1";
  port = 27960;
  protocol = pos 68;
  state = pos 3;
  gamename = codes "Quake3Arena";
  gametype = codes "0";
}

abbrev past_loaded : Servers
past_loaded = load_line one_address Games.initial (empty 0) 300 three_slots past_line

load_line-past_example : is_active past_loaded 0 301 ≡ (remove past_loaded 0, false)
unfolding scan_fields c_string scan_ulong scan_unsigned scan_int scan_string strcmp is_space
    check_fields address_of get_by_addr init set_max_nb_servers is_accepted address_hash
    is_same_address get_addrmap Users.add find_free mathlib.Core.Bool.xor find search_from
    Users.init add_server is_active
load_line-past_example =
    load_line-past one_address Games.initial (empty 0) 300 three_slots past_line past_fields
      occupied quake.address 0 301 refl refl refl refl (omega arith) (omega arith) (omega arith)
