-- ===== src/Servers/Config.antt =====
-- src/servers.c: the settings and the initialisation of the server list.
use dpmaster_x.Prelude.{
  ℕ, Bool, true, false, none, List, [], ◌∷◌, ltb, leb, if◌then◌else◌, replicate, some,
}
use dpmaster_x.Users
use dpmaster_x.Servers.{Servers, Server, cleared}

-- `servers != NULL`: before the initialisation there is no array.
abbrev pub is_set : List Server → Bool
is_set [] = false
is_set (sv ∷ svs) = true

-- Sv_SetHashSize
unfoldable pub set_hash_size : Servers → ℕ → Servers × Bool
set_hash_size s size =
    if is_set s.servers
    then (s, false)
    else if ltb 16 size
    then (s, false)
    else (record s { sv_hash_size = size }, true)

-- Sv_SetMaxNbServers
unfoldable pub set_max_nb_servers : Servers → ℕ → Servers × Bool
set_max_nb_servers s nb =
    if is_set s.servers
    then (s, false)
    else if leb nb 0
    then (s, false)
    else (record s { max_nb_servers = nb }, true)

-- Sv_SetMaxNbServersPerAddress
unfoldable pub set_max_nb_servers_per_address : Servers → ℕ → Servers × Bool
set_max_nb_servers_per_address s nb =
    if is_set s.servers then (s, false) else (record s { max_per_address = nb }, true)

-- Sv_Init; the arguments say whether the array and the hash table can be allocated.
unfoldable pub init : Bool → Bool → Servers → Servers × Bool
init array_allocated table_allocated s =
    if array_allocated
    then (
      record s { servers = replicate s.max_nb_servers cleared; users = Users.init },
      table_allocated,
    )
    else (s, false)

-- The variables of the file as they are initialised; `hash_ports` is false.
abbrev pub initial : Servers
initial = record {
  servers = [];
  users = Users.init;
  max_nb_servers = 4096;
  nb_servers = 0;
  sv_hash_size = 10;
  max_per_address = 32;
  last_used_slot = none;
  first_free_slot = some 0;
  crt_server_ind = none;
  last_server_ind = none;
  addrmaps = [];
  allow_loopback = false;
  hash_ports = false;
}
