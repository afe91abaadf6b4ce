-- ===== src/Messages/Handle/Safe.antt =====
-- src/messages.c and src/dpmaster.c: what the handling of a packet does to the server list.
use dpmaster_x.Prelude.{
  ℕ, ◌≤◌, ◌≡◌, refl, sym, ap, ◌∙◌, Bool, true, false, if◌then◌else◌, Option, none, some, List, [],
  ◌∷◌, arith, length, set, Bool-cases, Option-cases, inl, inr,
}
use dpmaster_x.Text.{Text, c_string, scan_word}
use dpmaster_x.Address.{Address}
use dpmaster_x.Servers.{Server, Servers, server_at, is_unused}
use dpmaster_x.Servers.Lookup.{get_by_addr}
use dpmaster_x.Servers.Slots.{IsWellFormed, IsCalmFrom}
use dpmaster_x.Servers.Slots.Search.{get_by_addr-IsWellFormed}
use dpmaster_x.Servers.Slots.Write.{set-IsWellFormed, get_by_addr-used}
use dpmaster_x.Messages.Limiter.{Limits, heartbeat_rate_limited}
use dpmaster_x.Messages.InfoResponse.{handle_info_response}
use dpmaster_x.Messages.InfoResponse.Accepted.{handle_info_response-IsAccepted}
use dpmaster_x.Messages.GetServers.{is_initialized}
use dpmaster_x.Messages.GetServers.Answers.{Returns, handle_get_servers-Returns}
use dpmaster_x.Messages.Heartbeat.{
  send_get_info, differ, accepted_properties, answer_heartbeat, handle_heartbeat, needs_challenge,
  build_challenge,
}
use dpmaster_x.Messages.Heartbeat.Challenge.{AllUsable, send_get_info-some}
use dpmaster_x.Messages.Master.{Master}
use dpmaster_x.Messages.Handle.{
  Message, heartbeat, info_response, get_servers, get_servers_ext, message_of, on_info_response,
  on_query, handle_message, check_packet, receive,
}

pub initialized-used : (sv : Server) → is_initialized sv.state ≡ true → is_unused sv.state ≡ false
initialized-used sv h = ground (arith, h)

on_info_response-IsWellFormed :
    (m : Master) (rest : Text) (address : Address) (crt_time : ℕ)
    → IsWellFormed m.servers
    → IsWellFormed (on_info_response m rest address crt_time).servers
unfolding on_info_response
on_info_response-IsWellFormed m rest address crt_time w = elim (Option-cases got.1) [
  | inl e ↦ rw (e, on_info_response) kept
  | inr (i, e) ↦
      elim (Option-cases (handle_info_response m.policy (server_at got.0 i) rest crt_time)) [
        | inl rejected ↦ rw (e, rejected, on_info_response) kept
        | inr (new, accepted) ↦
            let a =
              handle_info_response-IsAccepted m.policy (server_at got.0 i) rest crt_time new
                accepted in
            rw (e, accepted, on_info_response)
              (set-IsWellFormed got.0 i new kept (
                initialized-used new a.initialized
                ∙ sym (get_by_addr-used m.servers address crt_time i e)))
      ]
]
  where
    got : Servers × Option ℕ
    got = get_by_addr m.servers address false crt_time

    kept : IsWellFormed got.0
    kept = get_by_addr-IsWellFormed m.servers address false crt_time w (λ h. cc)

-- SendGetInfo leaves the state of the server alone.
pub send_get_info-state :
    (server server' : Server) (force : Bool) (crt_time : ℕ) (rands msg : List ℕ)
    → send_get_info server force crt_time rands ≡ some (server', msg)
    → server'.state ≡ server.state
unfolding send_get_info
send_get_info-state server server' force crt_time rands msg h =
    elim (Bool-cases (needs_challenge server force crt_time)) [
      | inr keep ↦ ground (arith, keep, h)
      | inl renew ↦ elim (Option-cases (build_challenge rands)) [
        | inl e ↦ absurd (ground (arith, renew, e, h))
        | inr (r, e) ↦ ground (arith, renew, e, h)
      ]
    ]

answer_heartbeat-Returns :
    (m : Master) (address : Address) (crt_time rand : ℕ) (rands : List ℕ) (game_props : Option Text)
    → IsWellFormed m.servers
    → IsCalmFrom m.servers 0 crt_time
    → AllUsable rands
    → 11 ≤ length rands
    → Returns (answer_heartbeat m address crt_time (rand ∷ rands) game_props)
unfolding answer_heartbeat Returns
answer_heartbeat-Returns m address crt_time rand rands game_props w calm a h =
    elim (Option-cases got.1) [
      | inl e ↦ ((record m { servers = got.0 }, []), rw (e, answer_heartbeat) refl, kept)
      | inr (i, e) ↦
          let server = server_at got.0 i in
          let ((server', msg), run) =
            send_get_info-some server (differ server.hb_properties game_props) crt_time rand rands a
              h in
          let saved : Server = record server' { hb_properties = game_props } in
          (
            (
              record m { servers = record got.0 { servers = set got.0.servers i saved } },
              record { to = server'.address; bytes = msg } ∷ [],
            ),
            rw (e, run, answer_heartbeat) refl,
            set-IsWellFormed got.0 i saved kept (
                ap is_unused (
                  send_get_info-state server server' (differ server.hb_properties game_props)
                    crt_time (rand ∷ rands) msg run)),
          )
    ]
  where
    got : Servers × Option ℕ
    got = get_by_addr m.servers address true crt_time

    kept : IsWellFormed got.0
    kept = get_by_addr-IsWellFormed m.servers address true crt_time w (λ h. calm)

handle_heartbeat-Returns :
    (m : Master) (stale msg : Text) (address : Address) (crt_time rand : ℕ) (rands : List ℕ)
    → IsWellFormed m.servers
    → IsCalmFrom m.servers 0 crt_time
    → AllUsable rands
    → 11 ≤ length rands
    → Returns (handle_heartbeat m stale msg address crt_time (rand ∷ rands))
unfolding handle_heartbeat Returns
handle_heartbeat-Returns m stale msg address crt_time rand rands w calm a h =
    elim (Option-cases (accepted_properties m tag)) [
      | inl e ↦ ((m, []), rw (e, handle_heartbeat) refl, w)
      | inr (props, e) ↦
          rw (e, handle_heartbeat)
            (answer_heartbeat-Returns m address crt_time rand rands props w calm a h)
    ]
  where
    tag : Text
    tag = elim (scan_word 63 msg) [ none ↦ stale | some word ↦ word ]

handle_message-Returns :
    (m : Master) (stale msg : Text) (address : Address) (crt_time rand : ℕ) (rands : List ℕ)
    → IsWellFormed m.servers
    → ((rest : Text) → message_of msg ≡ some (heartbeat rest) → IsCalmFrom m.servers 0 crt_time)
    → AllUsable rands
    → 11 ≤ length rands
    → Returns (handle_message m stale msg address crt_time (rand ∷ rands))
unfolding handle_message Returns on_query
handle_message-Returns m stale msg address crt_time rand rands w calm a h =
    elim (Option-cases (message_of msg)) [
      | inl e ↦ ((m, []), rw (e, handle_message) refl, w)
      | inr (message, e) ↦ rw (e, handle_message) (by_message message e)
    ]
  where
    limited : Limits × Bool
    limited = heartbeat_rate_limited m.limits address crt_time

    by_message :
        (message : Message)
        → message_of msg ≡ some message
        → Returns (elim message [
          | heartbeat rest ↦
              if limited.1
              then some (record m { limits = limited.0 }, [])
              else handle_heartbeat
                  (record m { limits = limited.0 })
                  stale
                  rest
                  address
                  crt_time
                  (rand ∷ rands)
          | info_response rest ↦ some (on_info_response m rest address crt_time, [])
          | get_servers rest ↦ on_query m rest false address crt_time (rand ∷ rands)
          | get_servers_ext rest ↦ on_query m rest true address crt_time (rand ∷ rands)
        ])
    by_message (heartbeat rest) e = elim (Bool-cases limited.1) [
      | inl late ↦ ((record m { limits = limited.0 }, []), rw (late) refl, w)
      | inr early ↦ rw (early) (
          handle_heartbeat-Returns (record m { limits = limited.0 }) stale rest address crt_time
            rand rands w (calm rest e) a h)
    ]
    by_message (info_response rest) e = (
      (on_info_response m rest address crt_time, []),
      refl,
      on_info_response-IsWellFormed m rest address crt_time w,
    )
    by_message (get_servers rest) e =
        handle_get_servers-Returns m rest address false rand crt_time w
    by_message (get_servers_ext rest) e =
        handle_get_servers-Returns m rest address true rand crt_time w

-- The packet passes the checks and is a heartbeat.
abbrev pub IsHeartbeat : List ℕ → Address → Type 0
IsHeartbeat packet address =
    (bytes : List ℕ) × (rest : Text) × (check_packet packet address ≡ some bytes)
    × (message_of (c_string bytes) ≡ some (heartbeat rest))

-- Every packet that the main loop receives is handled without a division by zero, and leaves the
-- server list well formed, if the list was well formed, no server has timed out at that time if
-- the packet is a heartbeat, and the random numbers from the second on are at least eleven and
-- give no forbidden character of a challenge.
pub receive-Returns :
    (m : Master) (stale : Text) (packet : List ℕ) (address : Address) (crt_time rand : ℕ)
    (rands : List ℕ)
    → IsWellFormed m.servers
    → (IsHeartbeat packet address → IsCalmFrom m.servers 0 crt_time)
    → AllUsable rands
    → 11 ≤ length rands
    → Returns (receive m stale packet address crt_time (rand ∷ rands))
unfolding receive Returns
receive-Returns m stale packet address crt_time rand rands w calm a h =
    elim (Option-cases (check_packet packet address)) [
      | inl e ↦ ((m, []), rw (e, receive) refl, w)
      | inr (bytes, e) ↦
          rw (e, receive)
            (handle_message-Returns m stale (c_string bytes) address crt_time rand rands w
              (λ rest f. calm (bytes, rest, e, f)) a h)
    ]
