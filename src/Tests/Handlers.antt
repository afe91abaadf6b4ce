-- ===== src/Tests/Handlers.antt =====
-- The theorems on the message handlers at concrete messages.
use mathlib.Core.Bool.{xor}
use dpmaster_x.Prelude.{
  ℕ, ◌-◌, ◌≡◌, refl, true, false, none, some, List, [], ◌∷◌, get_or-replicate, arith, min, pos,
}
use dpmaster_x.Text.{Text, codes, strcmp, after_char, strtol, atoi, has_char}
use dpmaster_x.Address.{Address, ipv4}
use dpmaster_x.Games.{Policy, is_accepted, find, search_from}
use dpmaster_x.Servers.{Server, Servers, cleared, uninitialized, occupied}
use dpmaster_x.Users
use dpmaster_x.Clients.{Clients}
use dpmaster_x.Properties.{empty}
use dpmaster_x.Servers.Config.{init, initial, set_max_nb_servers}
use dpmaster_x.Servers.Slots.Start.{init-IsWellFormed}
use dpmaster_x.Messages.Master.{Master}
use dpmaster_x.Messages.Handle.{receive}
use dpmaster_x.Messages.Handle.Safe.{receive-Returns}
use dpmaster_x.Servers.Slots.{IsCalmFrom}
use dpmaster_x.Messages.GetServers.{handle_get_servers}
use dpmaster_x.Messages.GetServers.Answers.{Returns, handle_get_servers-Returns}
use dpmaster_x.Messages.Infostring.{search_infostring, read_key, read_value}
use dpmaster_x.Messages.Infostring.Pairs.{
  AreTokens, no_pairs, more_pairs, infostring, first_value, search_infostring-finds,
}
use dpmaster_x.Messages.InfoResponse.{handle_info_response}
use dpmaster_x.Messages.InfoResponse.Accepted.{IsAccepted, handle_info_response-IsAccepted}
use dpmaster_x.Messages.Limiter.{Limits, find_entry, same_bytes}
use dpmaster_x.Messages.Limiter.Window.{accepted, accepted-min}

abbrev two_pairs : List (Text × Text)
two_pairs = (codes "protocol", codes "3") ∷ (codes "clients", codes "2") ∷ []

two_pairs-AreTokens : AreTokens two_pairs
unfolding has_char
two_pairs-AreTokens =
    more_pairs (codes "protocol") (codes "3") ((codes "clients", codes "2") ∷ [])
      (record { plain = refl; short = omega arith }) (record { plain = refl; short = omega arith })
      (more_pairs (codes "clients") (codes "2") [] (record { plain = refl; short = omega arith })
        (record { plain = refl; short = omega arith }) no_pairs)

search_infostring-finds_example :
    search_infostring (infostring two_pairs) (codes "clients")
    ≡ first_value two_pairs (codes "clients")
search_infostring-finds_example =
    search_infostring-finds two_pairs (codes "clients") two_pairs-AreTokens

abbrev accepting : Policy
accepting = record { game_names = []; reject_when_known = true }

abbrev asked : Server
asked = record cleared {
  state = uninitialized;
  challenge = codes "abcdefgh";
  challenge_timeout = 50;
  timeout = pos 60;
  hb_properties = some (codes "X");
}

abbrev answer : Text
answer = codes "\\challenge\\abcdefgh\\protocol\\3\\sv_maxclients\\8\\clients\\2"

abbrev answered : Server
answered = record asked {
  gamename = codes "X";
  protocol = pos 3;
  anon_properties = some (codes "X");
  gametype = codes "0";
  state = occupied;
  timeout = pos 940;
}

handle_info_response-IsAccepted_example : IsAccepted accepting asked answer 40 answered
unfolding handle_info_response search_infostring read_key strcmp read_value after_char strtol atoi
    has_char is_accepted xor find search_from
handle_info_response-IsAccepted_example =
    handle_info_response-IsAccepted accepting asked answer 40 answered refl

abbrev address_one : Address
address_one = ipv4 (record { s_addr = 16777226; sin_port = 14445 })

abbrev limits : Limits
limits = record {
  heartbeat_limits = record { address = some address_one; window_start = 100; count = 8 } ∷ [];
  heartbeat_limit_next = 1;
}

accepted-min_example : accepted limits address_one (100 ∷ 101 ∷ 101 ∷ 109 ∷ []) ≡ min 4 (10 - 8)
unfolding find_entry same_bytes
accepted-min_example =
    accepted-min limits address_one 0 (100 ∷ 101 ∷ 101 ∷ 109 ∷ []) refl
      (omega arith, (omega arith, (omega arith, (omega arith, record {})))) (omega arith)

abbrev eleven : List ℕ
eleven = 0 ∷ 5 ∷ 10 ∷ 20 ∷ 30 ∷ 40 ∷ 50 ∷ 60 ∷ 70 ∷ 80 ∷ 93 ∷ []

abbrev no_servers : Servers
no_servers = (init true true (set_max_nb_servers initial 3).0).0

abbrev no_clients : Clients
no_clients = record {
  clients = some [];
  users = Users.init;
  max_nb_clients = 2;
  cl_hash_size = 4;
  last_used_slot = none;
  fp_decay_time = 3;
  fp_throttle = pos 5;
  flood_protection = false;
  hash_ports = false;
}

abbrev master : Master
master = record {
  servers = no_servers;
  clients = no_clients;
  policy = accepting;
  registry = empty 4;
  limits = limits;
}

handle_get_servers-Returns_example :
    Returns (handle_get_servers master (codes "Nexuiz 3 empty full") address_one false 9 40)
handle_get_servers-Returns_example =
    handle_get_servers-Returns master (codes "Nexuiz 3 empty full") address_one false 9 40
      (init-IsWellFormed 3 true (omega arith) (omega arith))

no_servers-IsCalm : IsCalmFrom no_servers 0 40
unfolding init set_max_nb_servers
no_servers-IsCalm j l u = ground (arith, get_or-replicate 3 j cleared)

-- "\xFF\xFF\xFF\xFFheartbeat DarkPlaces\n"
abbrev heartbeat_packet : List ℕ
heartbeat_packet = 255 ∷ 255 ∷ 255 ∷ 255 ∷ codes "heartbeat DarkPlaces\n"

receive-Returns_example : Returns (receive master [] heartbeat_packet address_one 40 (3 ∷ eleven))
receive-Returns_example =
    receive-Returns master [] heartbeat_packet address_one 40 3 eleven
      (init-IsWellFormed 3 true (omega arith) (omega arith)) (λ h. no_servers-IsCalm) (ground arith)
      (omega arith)
