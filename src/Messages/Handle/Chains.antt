-- ===== src/Messages/Handle/Chains.antt =====
-- src/messages.c and src/dpmaster.c: the handling of a packet keeps the chains of the servers.
use dpmaster_x.Prelude.{
  arith, ℕ, ◌≡◌, sym, ap, ◌∙◌, Bool, true, false, Option, none, some, List, [], ◌∷◌, inl, inr,
  Bool-cases, Option-cases,
}
use dpmaster_x.Text.{Text, c_string, scan_word}
use dpmaster_x.Address.{Address}
use dpmaster_x.Servers.{Server, Servers, server_at, is_unused}
use dpmaster_x.Servers.Lookup.{get_by_addr}
use dpmaster_x.Servers.Slots.{IsWellFormed}
use dpmaster_x.Servers.Slots.Write.{get_by_addr-used}
use dpmaster_x.Servers.Slots.Indexed.{Indexed}
use dpmaster_x.Servers.Slots.Filed.{get_by_addr-Indexed}
use dpmaster_x.Servers.Slots.Chained.{set-Indexed}
use dpmaster_x.Messages.Limiter.{heartbeat_rate_limited}
use dpmaster_x.Messages.InfoResponse.{handle_info_response}
use dpmaster_x.Messages.InfoResponse.Accepted.{handle_info_response-IsAccepted}
use dpmaster_x.Messages.Heartbeat.{
  send_get_info, differ, accepted_properties, answer_heartbeat, handle_heartbeat, needs_challenge,
  build_challenge,
}
use dpmaster_x.Messages.Master.{Master}
use dpmaster_x.Messages.Handle.{
  heartbeat, info_response, get_servers, get_servers_ext, message_of, on_info_response, on_query,
  handle_message, check_packet, receive,
}
use dpmaster_x.Messages.Handle.Safe.{initialized-used, send_get_info-state}
use dpmaster_x.Messages.GetServers.Kept.{Keeps, handle_get_servers-Keeps}

on_info_response-Indexed :
    (m : Master) (rest : Text) (address : Address) (crt_time : ℕ)
    → IsWellFormed m.servers
    → Indexed m.servers
    → Indexed (on_info_response m rest address crt_time).servers
unfolding on_info_response
on_info_response-Indexed m rest address crt_time w x = elim (Option-cases got.1) [
  | inl e ↦ rw (e, on_info_response) kept
  | inr (i, e) ↦
      elim (Option-cases (handle_info_response m.policy (server_at got.0 i) rest crt_time)) [
        | inl refused ↦ rw (e, refused, on_info_response) kept
        | inr (new, accepted) ↦
            let a =
              handle_info_response-IsAccepted m.policy (server_at got.0 i) rest crt_time new
                accepted in
            rw (e, accepted, on_info_response)
              (set-Indexed got.0 i new kept a.address (
                initialized-used new a.initialized
                ∙ sym (get_by_addr-used m.servers address crt_time i e)))
      ]
]
  where
    got : Servers × Option ℕ
    got = get_by_addr m.servers address false crt_time

    kept : Indexed got.0
    kept = get_by_addr-Indexed m.servers address false crt_time w x

-- SendGetInfo leaves the address of the server alone.
send_get_info-address :
    (server server' : Server) (force : Bool) (crt_time : ℕ) (rands msg : List ℕ)
    → send_get_info server force crt_time rands ≡ some (server', msg)
    → server'.address ≡ server.address
unfolding send_get_info
send_get_info-address server server' force crt_time rands msg h =
    elim (Bool-cases (needs_challenge server force crt_time)) [
      | inr keep ↦ ground (arith, keep, h)
      | inl renew ↦ elim (Option-cases (build_challenge rands)) [
        | inl e ↦ absurd (ground (arith, renew, e, h))
        | inr (r, e) ↦ ground (arith, renew, e, h)
      ]
    ]

answer_heartbeat-Keeps :
    (m : Master) (address : Address) (crt_time : ℕ) (rands : List ℕ) (game_props : Option Text)
    → IsWellFormed m.servers
    → Indexed m.servers
    → Keeps (answer_heartbeat m address crt_time rands game_props)
unfolding answer_heartbeat
answer_heartbeat-Keeps m address crt_time rands game_props w x = elim (Option-cases got.1) [
  | inl e ↦ rw (e, answer_heartbeat) kept
  | inr (i, e) ↦
      let server = server_at got.0 i in
      let force = differ server.hb_properties game_props in
      elim (Option-cases (send_get_info server force crt_time rands)) [
        | inl failed ↦ rw (e, failed, answer_heartbeat) tt
        | inr ((server', msg), sent) ↦
            rw (e, sent, answer_heartbeat)
              (set-Indexed got.0 i (record server' { hb_properties = game_props }) kept
                (send_get_info-address server server' force crt_time rands msg sent)
                (ap is_unused (send_get_info-state server server' force crt_time rands msg sent)))
      ]
]
  where
    got : Servers × Option ℕ
    got = get_by_addr m.servers address true crt_time

    kept : Indexed got.0
    kept = get_by_addr-Indexed m.servers address true crt_time w x

handle_heartbeat-Keeps :
    (m : Master) (stale msg : Text) (address : Address) (crt_time : ℕ) (rands : List ℕ)
    → IsWellFormed m.servers
    → Indexed m.servers
    → Keeps (handle_heartbeat m stale msg address crt_time rands)
unfolding handle_heartbeat
handle_heartbeat-Keeps m stale msg address crt_time rands w x =
    elim (Option-cases (accepted_properties m tag)) [
      | inl e ↦ rw (e, handle_heartbeat) x
      | inr (props, e) ↦
          rw (e, handle_heartbeat) (answer_heartbeat-Keeps m address crt_time rands props w x)
    ]
  where
    tag : Text
    tag = elim (scan_word 63 msg) [ none ↦ stale | some word ↦ word ]

on_query-Keeps :
    (m : Master) (rest : Text) (extended : Bool) (address : Address) (crt_time : ℕ) (rands : List ℕ)
    → Indexed m.servers
    → Keeps (on_query m rest extended address crt_time rands)
unfolding on_query
on_query-Keeps m rest extended address crt_time [] x = tt
on_query-Keeps m rest extended address crt_time (rand ∷ rands) x =
    handle_get_servers-Keeps m rest address extended rand crt_time x

handle_message-Keeps :
    (m : Master) (stale msg : Text) (address : Address) (crt_time : ℕ) (rands : List ℕ)
    → IsWellFormed m.servers
    → Indexed m.servers
    → Keeps (handle_message m stale msg address crt_time rands)
unfolding handle_message
handle_message-Keeps m stale msg address crt_time rands w x = elim (Option-cases (message_of msg)) [
  | inl e ↦ rw (e, handle_message) x
  | inr (heartbeat rest, e) ↦
      let limited = heartbeat_rate_limited m.limits address crt_time in
      elim (Bool-cases limited.1) [
        | inl late ↦ rw (e, late, handle_message) x
        | inr early ↦
            rw (e, early, handle_message)
              (handle_heartbeat-Keeps (record m { limits = limited.0 }) stale rest address crt_time
                rands w x)
      ]
  | inr (info_response rest, e) ↦
      rw (e, handle_message) (on_info_response-Indexed m rest address crt_time w x)
  | inr (get_servers rest, e) ↦
      rw (e, handle_message) (on_query-Keeps m rest false address crt_time rands x)
  | inr (get_servers_ext rest, e) ↦
      rw (e, handle_message) (on_query-Keeps m rest true address crt_time rands x)
]

pub receive-Keeps :
    (m : Master) (stale : Text) (packet : List ℕ) (address : Address) (crt_time : ℕ)
    (rands : List ℕ)
    → IsWellFormed m.servers
    → Indexed m.servers
    → Keeps (receive m stale packet address crt_time rands)
unfolding receive
receive-Keeps m stale packet address crt_time rands w x =
    elim (Option-cases (check_packet packet address)) [
      | inl e ↦ rw (e, receive) x
      | inr (bytes, e) ↦
          rw (e, receive) (handle_message-Keeps m stale (c_string bytes) address crt_time rands w x)
    ]
