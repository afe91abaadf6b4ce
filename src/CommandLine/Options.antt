-- ===== src/CommandLine/Options.antt =====
-- src/dpmaster.c and src/system.c: the tables of the options of the command line.
use dpmaster_x.Prelude.{ℕ, ◌^◌, ◌-◌, Option, none, some, List, [], ◌∷◌, if◌then◌else◌}
use dpmaster_x.Text.{Text, codes, str_eq}

-- `cmdlineopt_t`, less the help texts; a short name 0 is no short name.
pub record CmdlineOption : Type 0 where
  pub long_name : Text
  pub short_name : ℕ
  pub min_params : ℕ
  pub max_params : ℕ

-- The options by what they do.
pub data Choice : Type 0 where
  allow_loopback flood_protection fp_decay_time fp_throttle cl_hash_size : Choice
  game_properties game_policy help hash_ports hash_size listen log log_file map : Choice
  state_file max_clients max_servers max_servers_per_addr port verbose : Choice

abbrev row : Text → ℕ → ℕ → ℕ → CmdlineOption
row long_name short_name min_params max_params = record {
  long_name = long_name;
  short_name = short_name;
  min_params = min_params;
  max_params = max_params;
}

-- UINT_MAX
abbrev pub uint_max : ℕ
uint_max = 2 ^ 32 - 1

abbrev pub cmdline_options : List CmdlineOption
cmdline_options =
    row (codes "allow-loopback") 0 0 0
    ∷ row (codes "cl-hash-size") 0 1 1
    ∷ row (codes "flood-protection") b'f' 0 0
    ∷ row (codes "fp-decay-time") 0 1 1
    ∷ row (codes "fp-throttle") 0 1 1
    ∷ row (codes "game-properties") b'g' 0 uint_max
    ∷ row (codes "game-policy") 0 2 uint_max
    ∷ row (codes "help") b'h' 0 0
    ∷ row (codes "hash-ports") 0 0 0
    ∷ row (codes "hash-size") b'H' 1 1
    ∷ row (codes "listen") b'l' 1 1
    ∷ row (codes "log") b'L' 0 0
    ∷ row (codes "log-file") 0 1 1
    ∷ row (codes "map") b'm' 1 1
    ∷ row (codes "max-clients") 0 1 1
    ∷ row (codes "state-file") 0 1 1
    ∷ row (codes "max-servers") b'n' 1 1
    ∷ row (codes "max-servers-per-addr") b'N' 1 1
    ∷ row (codes "port") b'p' 1 1
    ∷ row (codes "verbose") b'v' 0 1
    ∷ []

-- The options of a system that is not Windows.
abbrev pub sys_cmdline_options : List CmdlineOption
sys_cmdline_options =
    row (codes "daemon") b'D' 0 0
    ∷ row (codes "jail-path") b'j' 1 1
    ∷ row (codes "user") b'u' 1 1
    ∷ []

-- The comparisons of Cmdline_Option, in their order.
abbrev names : List (Text × Choice)
names =
    (codes "allow-loopback", allow_loopback)
    ∷ (codes "flood-protection", flood_protection)
    ∷ (codes "fp-decay-time", fp_decay_time)
    ∷ (codes "fp-throttle", fp_throttle)
    ∷ (codes "cl-hash-size", cl_hash_size)
    ∷ (codes "game-properties", game_properties)
    ∷ (codes "game-policy", game_policy)
    ∷ (codes "help", help)
    ∷ (codes "hash-ports", hash_ports)
    ∷ (codes "hash-size", hash_size)
    ∷ (codes "listen", listen)
    ∷ (codes "log", log)
    ∷ (codes "log-file", log_file)
    ∷ (codes "map", map)
    ∷ (codes "state-file", state_file)
    ∷ (codes "max-clients", max_clients)
    ∷ (codes "max-servers", max_servers)
    ∷ (codes "max-servers-per-addr", max_servers_per_addr)
    ∷ (codes "port", port)
    ∷ (codes "verbose", verbose)
    ∷ []

choice_among : List (Text × Choice) → Text → Option Choice
choice_among [] opt_name = none
choice_among ((name, choice) ∷ rest) opt_name =
    if str_eq opt_name name then some choice else choice_among rest opt_name

unfoldable pub choice_of : Text → Option Choice
unfolding choice_among
choice_of opt_name = choice_among names opt_name
