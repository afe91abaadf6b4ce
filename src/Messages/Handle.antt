-- ===== src/Messages/Handle.antt =====
-- src/messages.c: HandleMessage; and the checks that main of src/dpmaster.c makes of a packet.
pub mod Safe
pub mod Chains
use dpmaster_x.Prelude.{
  ℕ, Bool, true, false, not, ◌&&◌, Option, none, some, List, [], ◌∷◌, if◌then◌else◌, set, drop,
  length, ltb, ◌==◌,
}
use dpmaster_x.Text.{Text, codes, c_string, after_prefix}
use dpmaster_x.Address.{Address, port_of}
use dpmaster_x.Servers.{server_at}
use dpmaster_x.Servers.Lookup.{get_by_addr}
use dpmaster_x.Messages.Limiter.{heartbeat_rate_limited}
use dpmaster_x.Messages.InfoResponse.{handle_info_response}
use dpmaster_x.Messages.Master.{Master, Sent}
use dpmaster_x.Messages.Heartbeat.{handle_heartbeat}
use dpmaster_x.Messages.GetServers.{handle_get_servers}

-- The messages, with what follows their first words.
pub data Message : Type 0 where
  heartbeat info_response get_servers get_servers_ext : Text → Message

unfoldable pub message_of : Text → Option Message
message_of msg = elim (after_prefix (codes "heartbeat ") msg) [
  | some rest ↦ some (heartbeat rest)
  | none ↦ elim (after_prefix (codes "infoResponse\n") msg) [
    | some rest ↦ some (info_response rest)
    | none ↦ elim (after_prefix (codes "getservers ") msg) [
      | some rest ↦ some (get_servers rest)
      | none ↦ elim (after_prefix (codes "getserversExt ") msg) [
        | some rest ↦ some (get_servers_ext rest)
        | none ↦ none
      ]
    ]
  ]
]

-- An infoResponse, from a server that is in the list.
unfoldable pub on_info_response : Master → Text → Address → ℕ → Master
on_info_response m rest address crt_time =
    let got = get_by_addr m.servers address false crt_time in
    elim got.1 [
      | none ↦ record m { servers = got.0 }
      | some i ↦ elim (handle_info_response m.policy (server_at got.0 i) rest crt_time) [
        | none ↦ record m { servers = got.0 }
        | some server ↦ record m { servers = record got.0 { servers = set got.0.servers i server } }
      ]
    ]

-- A query; the iteration takes one random number.
unfoldable pub on_query : Master → Text → Bool → Address → ℕ → List ℕ → Option (Master × List Sent)
on_query m rest extended_request address crt_time [] = none
on_query m rest extended_request address crt_time (rand ∷ rands) =
    handle_get_servers m rest address extended_request rand crt_time

-- HandleMessage. `rands` are the numbers that `rand` returns, `stale` as in HandleHeartbeat.
unfoldable pub handle_message :
    Master → Text → Text → Address → ℕ → List ℕ → Option (Master × List Sent)
unfolding on_info_response on_query
handle_message m stale msg address crt_time rands = elim (message_of msg) [
  | none ↦ some (m, [])
  | some (heartbeat rest) ↦
      let limited = heartbeat_rate_limited m.limits address crt_time in
      let m' = record m { limits = limited.0 } in
      if limited.1 then some (m', []) else handle_heartbeat m' stale rest address crt_time rands
  | some (info_response rest) ↦ some (on_info_response m rest address crt_time, [])
  | some (get_servers rest) ↦ on_query m rest false address crt_time rands
  | some (get_servers_ext rest) ↦ on_query m rest true address crt_time rands
]

-- The four bytes 0xFF.
abbrev pub is_out_of_band : List ℕ → Bool
is_out_of_band (a ∷ b ∷ c ∷ d ∷ rest) = a == 255 && (b == 255 && (c == 255 && d == 255))
is_out_of_band _ = false

-- The checks of main: the bytes behind the header, for HandleMessage.
unfoldable pub check_packet : List ℕ → Address → Option (List ℕ)
check_packet packet address =
    if port_of address == 0
    then none
    else if ltb (length packet) 5
    then none
    else if not (is_out_of_band packet)
    then none
    else some (drop 4 packet)

-- One packet that the main loop receives. A '\0' is appended, so that the message is the C string
-- that starts behind the header.
unfoldable pub receive : Master → Text → List ℕ → Address → ℕ → List ℕ → Option (Master × List Sent)
receive m stale packet address crt_time rands = elim (check_packet packet address) [
  | none ↦ some (m, [])
  | some bytes ↦ handle_message m stale (c_string bytes) address crt_time rands
]
