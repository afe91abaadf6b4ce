-- ===== src/Messages/GetServers.antt =====
-- src/messages.c: HandleGetServers. A result `none` is a division by zero in Sv_GetFirst or
-- Sv_GetNext. Sending never fails.
pub mod Filter
pub mod Browse
pub mod Rounds
pub mod Answers
pub mod Named
pub mod Listing
pub mod Kept
use dpmaster_x.Prelude.{
  ℕ, zero, suc, Bool, true, false, not, ◌||◌, ◌&&◌, Option, none, some, List, [], ◌∷◌,
  if◌then◌else◌, take, ℤ, eqb_ℤ, is_some,
}
use mathlib.Core.List.{map}
use dpmaster_x.Text.{Text, str_eq}
use dpmaster_x.Address.{Address, is_ipv4}
use dpmaster_x.Clients.{blocked_by_throttle}
use dpmaster_x.Games.{Policy, is_accepted}
use dpmaster_x.Servers.{
  Server, Servers, ServerState, unused_slot, uninitialized, empty, occupied, full, server_at,
}
use dpmaster_x.Servers.Iterate.{get_first, get_next}
use dpmaster_x.Messages.Packet.{Output, started, add_server_entry, finish}
use dpmaster_x.Messages.Query.{Options, Header, parse_header, read_options}
use dpmaster_x.Messages.Master.{Master, Sent}

-- `state > sv_state_uninitialized`
abbrev pub is_initialized : ServerState → Bool
is_initialized unused_slot = false
is_initialized uninitialized = false
is_initialized empty = true
is_initialized occupied = true
is_initialized full = true

abbrev pub is_empty : ServerState → Bool
is_empty unused_slot = false
is_empty uninitialized = false
is_empty empty = true
is_empty occupied = false
is_empty full = false

abbrev pub is_full : ServerState → Bool
is_full unused_slot = false
is_full uninitialized = false
is_full empty = false
is_full occupied = false
is_full full = true

abbrev pub is_void : Text → Bool
is_void [] = true
is_void (c ∷ s) = false

-- "Check options, game type and game name"
unfoldable pub is_skipped : Options → Text → Server → Bool
is_skipped o gamename sv =
    (not o.opt_empty && is_empty sv.state)
    || ((not o.opt_full && is_full sv.state)
        || ((not o.opt_ipv4 && is_ipv4 sv.address)
            || ((not o.opt_ipv6 && not (is_ipv4 sv.address))
                || ((o.opt_gametype && not (str_eq o.gametype sv.gametype))
                    || not (str_eq gamename sv.gamename)))))

-- What one round of the loop does: go on with a game name and an output, or return from the
-- handler, because the game of the first suitable server is not accepted.
pub data Round : Type 0 where
  go_on : Text → Output → Round
  rejected : Round

-- The body of the loop at a server.
unfoldable pub visit : Policy → Bool → ℤ → Options → Text → Output → Server → Round
unfolding is_skipped
visit policy extended_request protocol o gamename out sv =
    if not (is_initialized sv.state) || not (eqb_ℤ sv.protocol protocol)
    then go_on gamename out
    else (let adopts = is_void gamename && is_some sv.anon_properties in
        let gamename' = if adopts then take 63 sv.gamename else gamename in
        if adopts && not (is_accepted policy gamename')
        then rejected
        else if is_skipped o gamename' sv
        then go_on gamename' out
        else go_on gamename' (add_server_entry extended_request sv out))

-- The packets that a run of the loop leads to; none if the handler returns inside it.
pub record Browsed : Type 0 where
  pub after : Servers
  pub output : Option Output

-- The loop over the servers. Each server is visited at most once, so that one round for each slot
-- and one for the end are enough.
unfoldable pub browse :
    ℕ → Policy → Bool → ℤ → Options → ℕ → Text → Output → Servers → Option ℕ → Option Browsed
browse rounds policy extended_request protocol o crt_time gamename out s none =
    some (record { after = s; output = some out })
browse zero policy extended_request protocol o crt_time gamename out s (some i) =
    some (record { after = s; output = some out })
browse (suc rounds) policy extended_request protocol o crt_time gamename out s (some i) =
    elim (visit policy extended_request protocol o gamename out (server_at s i)) [
      | rejected ↦ some (record { after = s; output = none })
      | go_on gamename' out' ↦ elim (get_next s crt_time) [
        | none ↦ none
        | some (s', next) ↦
            browse rounds policy extended_request protocol o crt_time gamename' out' s' next
      ]
    ]

abbrev pub sends_to : Address → List (List ℕ) → List Sent
sends_to addr packets = map (λ packet. record { to = addr; bytes = packet }) packets

-- HandleGetServers behind the checks of the request.
unfoldable pub answer_query : Master → Header → Address → Bool → ℕ → ℕ → Option (Master × List Sent)
unfolding browse
answer_query m h addr extended_request rand crt_time =
    let o = read_options extended_request h in
    elim (get_first m.servers rand crt_time) [
      | none ↦ none
      | some (s, first) ↦
          elim (browse (suc s.max_nb_servers) m.policy extended_request h.protocol o crt_time
            h.gamename (started extended_request) s first) [
              | none ↦ none
              | some b ↦ elim b.output [
                | none ↦ some (record m { servers = b.after }, [])
                | some out ↦
                    some
                      (record m { servers = b.after }, sends_to addr (finish extended_request out))
              ]
            ]
    ]

-- HandleGetServers
unfoldable pub handle_get_servers :
    Master → Text → Address → Bool → ℕ → ℕ → Option (Master × List Sent)
unfolding answer_query
handle_get_servers m msg addr extended_request rand crt_time =
    let throttled = blocked_by_throttle m.clients addr crt_time in
    let m' = record m { clients = throttled.0 } in
    if throttled.1 then some (m', []) else (elim (parse_header m.registry extended_request msg) [
      | none ↦ some (m', [])
      | some h ↦
          if not (is_void h.gamename) && not (is_accepted m.policy h.gamename)
          then some (m', [])
          else answer_query m' h addr extended_request rand crt_time
    ])
