-- ===== src/Servers/State.antt =====
-- src/servers.c: the state file, to which the validated servers are saved and from which they are
-- loaded. `unsigned long` and `time_t` have 64 bits: an expiry is read as the former, and cast to
-- the latter, so that one of 2^63 or more becomes a time before every other.
pub mod RoundTrip
pub mod Restored
pub mod Safe
pub mod Past
use mathlib.Core.Option
use dpmaster_x.Prelude.{
  ℕ, ◌+◌, ◌%◌, ◌^◌, Bool, true, false, not, ◌&&◌, Option, none, some, List, [], ◌∷◌, ◌++◌, ltb, leb,
  ◌==◌, if◌then◌else◌, ◌>>=◌, set, take, end_of, ℤ, pos, ltb_ℤ, eqb_ℤ, int64, uint64,
}
use dpmaster_x.Text.{Text, codes, c_string, str_eq}
use dpmaster_x.Text.Print.{print_unsigned, print_int}
use dpmaster_x.Text.Scan.{scan_ulong, scan_unsigned, scan_int, scan_string, lines_of}
use dpmaster_x.Address.{Address, ipv4, ipv6, is_ipv4, ntohs, port_of}
use dpmaster_x.Games.{Policy, is_accepted}
use dpmaster_x.Properties.{Registry}
use dpmaster_x.Properties.Lookups.{get_properties}
use dpmaster_x.Servers.{
  Servers, Server, ServerState, server_at, unused_slot, uninitialized, empty, occupied, full,
}
use dpmaster_x.Servers.Lookup.{get_by_addr}
use dpmaster_x.Servers.Config.{is_set}

-- `inet_ntop` and `inet_pton`. The address of an IPv6 server is read without a scope.
pub record AddressText : Type 0 where
  pub ntop : Address → Option Text
  pub pton4 : Text → Option ℕ
  pub pton6 : Text → Option (ℕ × ℕ × ℕ × ℕ)

-- `state_file_path`, and what stands in that file.
pub record StateFile : Type 0 where
  pub path : Option Text
  pub contents : Option Text

-- The value of the `server_state_t`.
abbrev pub state_number : ServerState → ℕ
state_number unused_slot = 0
state_number uninitialized = 1
state_number empty = 2
state_number occupied = 3
state_number full = 4

abbrev pub state_of : ℤ → Option ServerState
state_of z =
    if eqb_ℤ z (pos 2)
    then some empty
    else if eqb_ℤ z (pos 3)
    then some occupied
    else if eqb_ℤ z (pos 4)
    then some full
    else none

-- STATE_FILE_MAGIC "\n"
abbrev pub magic_line : Text
magic_line = codes "dpmaster-state-v1\n"

-- Sv_SetStateFile; the last argument says whether the copy of the path can be allocated.
unfoldable pub set_state_file : Servers → StateFile → Text → Bool → StateFile × Bool
set_state_file s file [] allocated = (file, false)
set_state_file s file (c ∷ path) allocated =
    if is_set s.servers
    then (file, false)
    else if allocated
    then (record file { path = some (c ∷ path) }, true)
    else (record file { path = none }, false)

-- The line of a server whose address has this text.
unfoldable pub server_line : Server → Text → Text
server_line sv address =
    print_unsigned (uint64 sv.timeout)
    ++ (32 ∷ print_unsigned (if is_ipv4 sv.address then 4 else 6)
        ++ (32 ∷ address
            ++ (32 ∷ print_unsigned (port_of sv.address)
                ++ (32 ∷ print_int sv.protocol
                    ++ (32 ∷ print_unsigned (state_number sv.state)
                        ++ (32 ∷ sv.gamename ++ (32 ∷ sv.gametype ++ 10 ∷ [])))))))

-- "sv->state <= sv_state_uninitialized || sv->timeout <= crt_time", negated
abbrev pub is_saved : Server → ℕ → Bool
is_saved sv crt_time = not (leb (state_number sv.state) 1) && ltb_ℤ (pos crt_time) sv.timeout

-- The loop of Sv_SaveState.
unfoldable pub save_servers : AddressText → List Server → ℕ → Text
unfolding server_line
save_servers api [] crt_time = []
save_servers api (sv ∷ svs) crt_time =
    let rest = save_servers api svs crt_time in
    if is_saved sv crt_time
    then (elim (api.ntop sv.address) [
      | none ↦ rest
      | some address ↦ server_line sv address ++ rest
    ])
    else rest

-- Sv_SaveState. The arguments say whether the temporary file can be opened, and whether it can be
-- written and renamed; only then the file changes.
unfoldable pub save_state : AddressText → Bool → Bool → Servers → ℕ → StateFile → StateFile × Bool
unfolding save_servers
save_state api opened committed s crt_time file = elim file.path [
  | none ↦ (file, true)
  | some path ↦
      if opened && committed
      then (
        record file {
          contents =
              some (
                magic_line ++ save_servers api (take (end_of s.last_used_slot) s.servers) crt_time);
        },
        true,
      )
      else (file, false)
]

-- The variables that `sscanf` fills.
pub record Fields : Type 0 where
  pub expiry : ℕ
  pub family : ℕ
  pub address_string : Text
  pub port : ℕ
  pub protocol : ℤ
  pub state : ℤ
  pub gamename : Text
  pub gametype : Text

-- The call of `sscanf`: none unless it returns 8.
unfoldable pub scan_fields : Text → Option Fields
scan_fields line = do
  a ← scan_ulong line
  b ← scan_unsigned 32 a.1
  c ← scan_string 45 b.1
  d ← scan_unsigned 16 c.1
  e ← scan_int d.1
  f ← scan_int e.1
  g ← scan_string 63 f.1
  h ← scan_string 31 g.1
  some (record {
    expiry = a.0;
    family = b.0;
    address_string = c.0;
    port = d.0;
    protocol = e.0;
    state = f.0;
    gamename = g.0;
    gametype = h.0;
  })

-- The checks behind `sscanf`, and the state.
unfoldable pub check_fields : Policy → Fields → ℕ → Option ServerState
check_fields policy f crt_time =
    if leb f.expiry crt_time
    then none
    else if f.port == 0
    then none
    else if not (ltb_ℤ (pos 0) f.protocol)
    then none
    else (elim (state_of f.state) [
      | none ↦ none
      | some state ↦ if is_accepted policy f.gamename then some state else none
    ])

-- The address that the fields name; `htons` is `ntohs`.
unfoldable pub address_of : AddressText → Fields → Option Address
address_of api f =
    if f.family == 4
    then Option.map (λ a. ipv4 (record { s_addr = a; sin_port = ntohs f.port }))
        (api.pton4 f.address_string)
    else if f.family == 6
    then Option.map
        (λ a. ipv6 (record {
          w0 = a.0;
          w1 = a.1;
          w2 = a.2;
          w3 = a.3;
          sin6_port = ntohs f.port;
          sin6_scope_id = 0;
          sin6_flowinfo = 0;
        }))
        (api.pton6 f.address_string)
    else none

-- The end of a round of Sv_LoadState: the server is found or added, and its entry is written.
-- `(time_t)expiry` may be negative.
unfoldable pub restore :
    Registry → ℕ → Servers → Address → ℕ → ℤ → ServerState → Text → Text → Servers
restore r crt_time s address expiry protocol state gamename gametype =
    let got = get_by_addr s address true crt_time in
    elim got.1 [
      | none ↦ got.0
      | some i ↦ record got.0 {
        servers = set got.0.servers i (record (server_at got.0 i) {
          timeout = int64 expiry;
          protocol = protocol;
          state = state;
          gamename = gamename;
          gametype = gametype;
          anon_properties = Option.map (λ p. p.name) (get_properties r gamename);
        });
      }
    ]

-- A round of the loop of Sv_LoadState.
unfoldable pub load_line : AddressText → Policy → Registry → ℕ → Servers → Text → Servers
unfolding scan_fields check_fields address_of restore
load_line api policy r crt_time s line = elim (scan_fields (c_string line)) [
  | none ↦ s
  | some f ↦ elim (check_fields policy f crt_time) [
    | none ↦ s
    | some state ↦ elim (address_of api f) [
      | none ↦ s
      | some address ↦ restore r crt_time s address f.expiry f.protocol state f.gamename f.gametype
    ]
  ]
]

unfoldable pub load_lines : AddressText → Policy → Registry → ℕ → Servers → List Text → Servers
load_lines api policy r crt_time s [] = s
load_lines api policy r crt_time s (line ∷ lines) =
    load_lines api policy r crt_time (load_line api policy r crt_time s line) lines

-- The file behind its first line.
unfoldable pub load_contents :
    AddressText → Policy → Registry → ℕ → Servers → List Text → Servers × Bool
unfolding load_lines load_line
load_contents api policy r crt_time s [] = (s, false)
load_contents api policy r crt_time s (line ∷ lines) =
    if str_eq (c_string line) magic_line
    then (load_lines api policy r crt_time s lines, true)
    else (s, false)

-- Sv_LoadState; `readable` says whether a file that exists can be opened. The buffer of `fgets`
-- has 512 bytes.
unfoldable pub load_state :
    AddressText → Policy → Registry → Bool → ℕ → StateFile → Servers → Servers × Bool
unfolding load_contents
load_state api policy r readable crt_time file s = elim file.path [
  | none ↦ (s, true)
  | some path ↦ elim file.contents [
    | none ↦ (s, true)
    | some contents ↦
        if readable
        then load_contents api policy r crt_time s (lines_of 511 contents)
        else (s, false)
  ]
]
