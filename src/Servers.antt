-- ===== src/Servers.antt =====
-- src/servers.c: the server list. All servers stand in the array `servers`; those in use also in
-- the chains of a user hash table. An index that may be -1 is an `Index`; times are seconds.
-- `addrlen` is the one that the family of the address has.
pub mod Lookup
pub mod Iterate
pub mod Addrmap
pub mod Config
pub mod State
pub mod Slots
pub mod Crash
use dpmaster_x.Prelude.{
  ltb_ℤ, ℕ, zero, suc, ◌+◌, ◌-◌, ◌^◌, ◌%◌, Bool, true, false, Option, none, some, List, [], ltb,
  ◌==◌, if◌then◌else◌, get_or, set, Index, end_of, ℤ, pos,
}
use dpmaster_x.Text.{Text}
use dpmaster_x.Address.{Address, ipv4, Inet}
use dpmaster_x.Users.{Users}
use dpmaster_x.Users

-- `addrmap_t`, less its link
pub record AddressMapping : Type 0 where
  pub from : Inet
  pub to : Inet
  pub from_string : Text
  pub to_string : Text

-- `server_state_t`
pub data ServerState : Type 0 where
  unused_slot uninitialized empty occupied full : ServerState

-- `server_t`, less the links of its `user_t`, which stand in `Users` under the server's index.
-- Properties of a game are named by the game, as in `Properties`.
pub record Server : Type 0 where
  pub address : Address
  pub addrmap : Option AddressMapping
  pub anon_properties : Option Text
  pub hb_properties : Option Text
  pub timeout : ℤ
  pub challenge_timeout : ℕ
  pub protocol : ℤ
  pub state : ServerState
  pub challenge : Text
  pub gametype : Text
  pub gamename : Text

-- The variables of the file, with `hash_ports` of src/common.c.
pub record Servers : Type 0 where
  pub servers : List Server
  pub users : Users
  pub max_nb_servers : ℕ
  pub nb_servers : ℕ
  pub sv_hash_size : ℕ
  pub max_per_address : ℕ
  pub last_used_slot : Index
  pub first_free_slot : Index
  pub crt_server_ind : Index
  pub last_server_ind : Index
  pub addrmaps : List AddressMapping
  pub allow_loopback : Bool
  pub hash_ports : Bool

-- TIMEOUT_HEARTBEAT
abbrev pub timeout_heartbeat : ℕ
timeout_heartbeat = 2

-- A server that `memset` has cleared.
abbrev pub cleared : Server
cleared = record {
  address = ipv4 (record { s_addr = 0; sin_port = 0 });
  addrmap = none;
  anon_properties = none;
  hb_properties = none;
  timeout = pos 0;
  challenge_timeout = 0;
  protocol = pos 0;
  state = unused_slot;
  challenge = [];
  gametype = [];
  gamename = [];
}

abbrev pub server_at : Servers → ℕ → Server
server_at s i = get_or s.servers i cleared

abbrev pub is_unused : ServerState → Bool
is_unused unused_slot = true
is_unused uninitialized = false
is_unused empty = false
is_unused occupied = false
is_unused full = false

-- `a > b`, between indices that may be -1
abbrev pub above : Index → Index → Bool
above a b = ltb (end_of b) (end_of a)

-- The loop of Sv_Remove: the last slot in use below a slot, or -1.
unfoldable pub last_used_before : List Server → ℕ → Index
last_used_before servers zero = none
last_used_before servers (suc i) =
    let rest = last_used_before servers i in
    if is_unused (get_or servers i cleared).state then rest else some i

-- `first_free_slot` after the slot at `sv_ind` became free
abbrev pub lower_free : Index → ℕ → Index
lower_free none sv_ind = some sv_ind
lower_free (some f) sv_ind = if ltb sv_ind f then some sv_ind else some f

abbrev pub is_index : Index → ℕ → Bool
is_index none i = false
is_index (some j) i = j == i

abbrev pub clamp : Index → Index → Index
clamp ind last_used = if above ind last_used then last_used else ind

-- Sv_Remove
unfoldable pub remove : Servers → ℕ → Servers
remove s sv_ind =
    let servers = set s.servers sv_ind (record (server_at s sv_ind) { state = unused_slot }) in
    let last_used =
      if is_index s.last_used_slot sv_ind
      then last_used_before servers sv_ind
      else s.last_used_slot in
    record s {
      servers = servers;
      users = Users.remove s.users sv_ind;
      nb_servers = (s.nb_servers + (2 ^ 32 - 1)) % 2 ^ 32;
      last_used_slot = last_used;
      first_free_slot = lower_free s.first_free_slot sv_ind;
      crt_server_ind = clamp s.crt_server_ind last_used;
      last_server_ind = clamp s.last_server_ind last_used;
    }

-- Sv_IsActive
unfoldable pub is_active : Servers → ℕ → ℕ → Servers × Bool
is_active s sv_ind crt_time =
    if is_unused (server_at s sv_ind).state
    then (s, false)
    else if ltb_ℤ (server_at s sv_ind).timeout (pos crt_time)
    then (remove s sv_ind, false)
    else (s, true)

-- Sv_CheckTimeouts. The end moves while the list is browsed; a round is left for every slot.
unfoldable pub check_from : ℕ → Servers → ℕ → ℕ → Servers
check_from zero s ind crt_time = s
check_from (suc rounds) s ind crt_time =
    let rest = check_from rounds (is_active s ind crt_time).0 (suc ind) crt_time in
    if ltb ind (end_of s.last_used_slot) then rest else s

unfoldable pub check_timeouts : Servers → ℕ → Servers
unfolding check_from
check_timeouts s crt_time = check_from s.max_nb_servers s 0 crt_time
