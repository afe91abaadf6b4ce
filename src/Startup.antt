-- ===== src/Startup.antt =====
-- src/dpmaster.c: UnsecureInit, SecureInit, and main up to its loop.
pub mod Ready
pub mod Run
use dpmaster_x.Prelude.{
  pos, ℕ, Bool, true, false, not, Option, none, some, List, [], ◌∷◌, if◌then◌else◌, ◌>>=◌,
}
use dpmaster_x.Text.{Text, codes}
use dpmaster_x.Users
use dpmaster_x.Games
use dpmaster_x.Games.{CmdlineStatus}
use dpmaster_x.Properties.{Registry}
use dpmaster_x.Clients
use dpmaster_x.Clients.{Clients}
use dpmaster_x.Servers.Addrmap.{resolve_address_mappings}
use dpmaster_x.Servers.Config
use dpmaster_x.Servers.Config.{init}
use dpmaster_x.Servers.State.{AddressText, load_state}
use dpmaster_x.Messages.Limiter
use dpmaster_x.Messages.Master.{Master}
use dpmaster_x.CommandLine.{Program, Memory}
use dpmaster_x.CommandLine.Parse.{parse_command_line, is_ok}

-- What the operating system grants: the log file and the addresses of the listening sockets, the
-- security initialisations, the sockets with the signals, the arrays of so many servers and
-- clients, the hash tables, and the state file.
pub record System : Type 0 where
  pub log : Bool
  pub addresses : Bool
  pub security : Bool
  pub sockets : Bool
  pub server_array : ℕ → Bool
  pub server_table : Bool
  pub state_file : Bool
  pub client_array : ℕ → Bool
  pub client_table : Bool

-- The variables of src/clients.c as they are initialised; flood protection is off.
abbrev pub initial_clients : Clients
initial_clients = record {
  clients = none;
  users = Users.init;
  max_nb_clients = 512;
  cl_hash_size = 7;
  last_used_slot = none;
  fp_decay_time = 3;
  fp_throttle = pos 5;
  flood_protection = false;
  hash_ports = false;
}

-- The variables before the command line is parsed, with the properties that Game_InitProperties
-- made, and what stands in the file that the state file may be.
abbrev pub initial_program : Registry → Option Text → Program
initial_program registry contents = record {
  servers = Config.initial;
  clients = initial_clients;
  policy = Games.initial;
  registry = registry;
  state_file = record { path = none; contents = contents };
  master_port = 27950;
  max_msg_level = 3;
  must_open_log = false;
  log_filepath = codes "/var/log/dpmaster.log";
  listen_addresses = [];
  daemon_requested = false;
  jail_path = codes "/var/empty/";
  low_priv_user = codes "nobody";
}

-- UnsecureInit
unfoldable pub unsecure_init : (Text → Option ℕ) → System → Program → Option Program
unsecure_init gethostbyname sys p =
    resolve_address_mappings gethostbyname p.servers.addrmaps >>= λ addrmaps.
    if sys.addresses
    then some (record p { servers = record (p.servers) { addrmaps = addrmaps } })
    else none

-- SecureInit; the result of Sv_LoadState is ignored.
unfoldable pub secure_init : AddressText → System → ℕ → Program → Option Program
secure_init api sys crt_time p =
    if not sys.sockets
    then none
    else (let sv = init (sys.server_array p.servers.max_nb_servers) sys.server_table p.servers in
        if not sv.1
        then none
        else (let loaded =
              load_state api p.policy p.registry sys.state_file crt_time p.state_file sv.0 in
            let cl =
              Clients.init (sys.client_array p.clients.max_nb_clients) sys.client_table p.clients in
            if cl.1 then some (record p { servers = loaded.0; clients = cl.0 }) else none))

-- The state that the handlers start with.
abbrev pub master_of : Program → Master
master_of p = record {
  servers = p.servers;
  clients = p.clients;
  policy = p.policy;
  registry = p.registry;
  limits = Limiter.initial;
}

-- main up to its loop; no result is an exit.
unfoldable pub start :
    AddressText → (Text → Option ℕ) → System → Memory → ℕ → Program → List Text → Option Master
unfolding unsecure_init
start api gethostbyname sys m crt_time p args = parse_command_line p m args >>= λ o.
    if not (is_ok o.status)
    then none
    else if not sys.log
    then none
    else unsecure_init gethostbyname sys o.program >>= λ p.
        if not sys.security
        then none
        else secure_init api sys crt_time p >>= λ p. some (master_of p)
