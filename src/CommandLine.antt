-- ===== src/CommandLine.antt =====
-- src/dpmaster.c and src/system.c: what each option of the command line does.
pub mod Options
pub mod Parse
pub mod Settings
use dpmaster_x.Prelude.{
  ℕ, zero, suc, ◌+◌, ◌-◌, ◌%◌, ◌^◌, Bool, true, false, Option, none, some, List, [], ◌∷◌, ◌++◌, ltb,
  ◌==◌, if◌then◌else◌, length, take, ℤ, uint32,
}
use dpmaster_x.Text.{Text, codes, str_eq, strtol}
use dpmaster_x.Games.{CmdlineStatus, Policy, declare_policy}
use dpmaster_x.Games.CmdlineStatus.{
  ok, show_help, show_game_properties, invalid_opt, not_enough_opt_params, too_much_opt_params,
  invalid_opt_params, not_enough_memory,
}
use dpmaster_x.Properties.{Registry}
use dpmaster_x.Properties.Update.{update_properties}
use dpmaster_x.Clients.{Clients, set_fp_decay_time, set_fp_throttle, set_max_nb_clients}
use dpmaster_x.Clients
use dpmaster_x.Servers.{Servers}
use dpmaster_x.Servers.Addrmap.{add_address_mapping}
use dpmaster_x.Servers.Config.{set_hash_size, set_max_nb_servers, set_max_nb_servers_per_address}
use dpmaster_x.Servers.State.{StateFile, set_state_file}
use dpmaster_x.CommandLine.Options.{
  CmdlineOption, Choice, choice_of, allow_loopback, cl_hash_size, flood_protection, fp_decay_time,
  fp_throttle, game_policy, game_properties, hash_ports, hash_size, help, listen, log, log_file,
  map, max_clients, max_servers, max_servers_per_addr, port, state_file, verbose,
}

-- The variables that the options set.
pub record Program : Type 0 where
  pub servers : Servers
  pub clients : Clients
  pub policy : Policy
  pub registry : Registry
  pub state_file : StateFile
  pub master_port : ℕ
  pub max_msg_level : ℕ
  pub must_open_log : Bool
  pub log_filepath : Text
  pub listen_addresses : List Text
  pub daemon_requested : Bool
  pub jail_path : Text
  pub low_priv_user : Text

-- How many allocations of a Game_DeclarePolicy succeed, and whether those of a path and of an
-- array of parameters do. `stray_policy` and `stray_properties` are what Game_DeclarePolicy and
-- Game_UpdateProperties do with games and properties whose addresses are made of the bytes of an
-- argument: none if the program crashes.
pub record Memory : Type 0 where
  pub names : ℕ
  pub path : Bool
  pub params : Bool
  pub stray_policy : Policy → Text → Option (Policy × CmdlineStatus)
  pub stray_properties : Registry → Text → Option (Registry × CmdlineStatus)

-- Cmdline_Option reads a number with `strtol`, and nothing may be left behind it.
unfoldable pub whole_number : Text → Option ℤ
whole_number param = elim (strtol param) [
  | none ↦ none
  | some (z, []) ↦ some z
  | some (z, c ∷ rest) ↦ none
]

abbrev pub Result : Type 0
Result = Option (Program × CmdlineStatus)

-- The status of a setter.
abbrev pub status_of : Bool → CmdlineStatus
status_of true = ok
status_of false = invalid_opt_params

-- MSG_DEBUG
abbrev pub msg_debug : ℕ
msg_debug = 4

-- MAX_LISTEN_SOCKETS
abbrev pub max_listen_sockets : ℕ
max_listen_sockets = 8

-- Sys_DeclareListenAddress
unfoldable pub declare_listen_address : List Text → Text → List Text × Bool
declare_listen_address sockets local_addr_name =
    if ltb (length sockets) max_listen_sockets
    then (sockets ++ local_addr_name ∷ [], true)
    else (sockets, false)

-- Com_SetLogFilePath; the buffer has MAX_PATH = 4096 bytes.
unfoldable pub set_log_file_path : Text → Text → Text × Bool
set_log_file_path log_filepath [] = (log_filepath, false)
set_log_file_path log_filepath (c ∷ path) = (take 4095 (c ∷ path), true)

-- The options that take a path, an address or a mapping.
unfoldable pub text_option : Program → Choice → Memory → Text → Program × CmdlineStatus
unfolding declare_listen_address set_log_file_path
text_option p listen m param = elim param [
  | [] ↦ (p, invalid_opt_params)
  | c ∷ s ↦
      let r = declare_listen_address p.listen_addresses (c ∷ s) in
      (record p { listen_addresses = r.0 }, status_of r.1)
]
text_option p log_file m param =
    let r = set_log_file_path p.log_filepath param in
    (record p { log_filepath = r.0 }, status_of r.1)
text_option p map m param =
    let r = add_address_mapping p.servers.addrmaps param in
    (record p { servers = record (p.servers) { addrmaps = r.0 } }, status_of r.1)
text_option p state_file m param =
    let r = set_state_file p.servers p.state_file param m.path in
    (record p { state_file = r.0 }, status_of r.1)
text_option p _ m param = (p, invalid_opt)

-- The setters of the options that take a number.
unfoldable pub set_number : Program → Choice → ℕ → Program × Bool
set_number p fp_decay_time n =
    let r = set_fp_decay_time p.clients n in (record p { clients = r.0 }, r.1)
set_number p fp_throttle n =
    let r = set_fp_throttle p.clients n in (record p { clients = r.0 }, r.1)
set_number p cl_hash_size n =
    let r = Clients.set_hash_size p.clients n in (record p { clients = r.0 }, r.1)
set_number p max_clients n =
    let r = set_max_nb_clients p.clients n in (record p { clients = r.0 }, r.1)
set_number p hash_size n = let r = set_hash_size p.servers n in (record p { servers = r.0 }, r.1)
set_number p max_servers n =
    let r = set_max_nb_servers p.servers n in (record p { servers = r.0 }, r.1)
set_number p max_servers_per_addr n =
    let r = set_max_nb_servers_per_address p.servers n in (record p { servers = r.0 }, r.1)
set_number p port n =
    let port_num = n % 2 ^ 16 in
    if port_num == 0 then (p, false) else (record p { master_port = port_num }, true)
set_number p verbose n =
    if ltb msg_debug n then (p, false) else (record p { max_msg_level = n }, true)
set_number p _ n = (p, false)

-- An option whose parameter is a number, of which its setter gets the low 32 bits.
unfoldable pub number_option : Program → Choice → Text → Program × CmdlineStatus
unfolding set_number whole_number
number_option p choice param = elim (whole_number param) [
  | none ↦ (p, invalid_opt_params)
  | some z ↦ let r = set_number p choice (uint32 z) in (r.0, status_of r.1)
]

-- The options without a parameter.
abbrev pub flag_option : Program → Choice → Program × CmdlineStatus
flag_option p allow_loopback =
    (record p { servers = record (p.servers) { allow_loopback = true } }, ok)
flag_option p flood_protection =
    (record p { clients = record (p.clients) { flood_protection = true } }, ok)
flag_option p hash_ports = (
  record p {
    servers = record (p.servers) { hash_ports = true };
    clients = record (p.clients) { hash_ports = true };
  },
  ok,
)
flag_option p log = (record p { must_open_log = true }, ok)
flag_option p verbose = (record p { max_msg_level = msg_debug }, ok)
flag_option p help = (p, show_help)
flag_option p game_properties = (p, show_game_properties)
flag_option p _ = (p, invalid_opt)

unfoldable pub game_option : Program → Choice → Memory → Text → List Text → Result
game_option p game_properties m game props = elim (update_properties p.registry game props) [
  | none ↦ none
  | some (registry, status) ↦ some (record p { registry = registry }, status)
]
game_option p game_policy m policy games =
    let r = declare_policy m.names p.policy policy games in some (record p { policy = r.0 }, r.1)
game_option p _ m param params = some (p, invalid_opt)

-- The branch of Cmdline_Option for an option and its parameters. A parameter that is read and is
-- not there has no result, nor has the call of `strcmp` in Game_UpdateHeartbeat.
unfoldable pub run_choice : Program → Choice → Memory → List Text → Result
unfolding text_option number_option game_option
run_choice p allow_loopback m params = some (flag_option p allow_loopback)
run_choice p flood_protection m params = some (flag_option p flood_protection)
run_choice p help m params = some (flag_option p help)
run_choice p hash_ports m params = some (flag_option p hash_ports)
run_choice p log m params = some (flag_option p log)
run_choice p verbose m [] = some (flag_option p verbose)
run_choice p game_properties m [] = some (flag_option p game_properties)
run_choice p game_properties m (game ∷ []) = some (p, not_enough_opt_params)
run_choice p game_properties m (game ∷ prop ∷ props) =
    game_option p game_properties m game (prop ∷ props)
run_choice p choice m [] = none
run_choice p game_policy m (policy ∷ games) = game_option p game_policy m policy games
run_choice p listen m (param ∷ params) = some (text_option p listen m param)
run_choice p log_file m (param ∷ params) = some (text_option p log_file m param)
run_choice p map m (param ∷ params) = some (text_option p map m param)
run_choice p state_file m (param ∷ params) = some (text_option p state_file m param)
run_choice p choice m (param ∷ params) = some (number_option p choice param)

-- Cmdline_Option
unfoldable pub cmdline_option : Program → Memory → CmdlineOption → List Text → Result
unfolding choice_of run_choice
cmdline_option p m opt params = elim (choice_of opt.long_name) [
  | none ↦ some (p, invalid_opt)
  | some choice ↦ run_choice p choice m params
]

-- Sys_Cmdline_Option
unfoldable pub sys_cmdline_option : Program → CmdlineOption → List Text → Result
sys_cmdline_option p opt params =
    if str_eq opt.long_name (codes "daemon")
    then some (record p { daemon_requested = true }, ok)
    else if str_eq opt.long_name (codes "jail-path")
    then (elim params [ [] ↦ none | path ∷ rest ↦ some (record p { jail_path = path }, ok) ])
    else if str_eq opt.long_name (codes "user")
    then (elim params [ [] ↦ none | user ∷ rest ↦ some (record p { low_priv_user = user }, ok) ])
    else some (p, ok)
