-- ===== src/Messages/GetServers/Answers.antt =====
-- src/messages.c: the results of HandleGetServers.
use dpmaster_x.Prelude.{
  ℕ, suc, ◌≡◌, inl, inr, refl, Bool, not, ◌&&◌, Option, some, List, [], Bool-cases, Option-cases,
}
use dpmaster_x.Text.{Text}
use dpmaster_x.Address.{Address}
use dpmaster_x.Clients
use dpmaster_x.Clients.{blocked_by_throttle}
use dpmaster_x.Games.{is_accepted}
use dpmaster_x.Messages.Packet.{started, finish}
use dpmaster_x.Messages.Query.{Header, parse_header, read_options}
use dpmaster_x.Messages.Master.{Master, Sent}
use dpmaster_x.Messages.GetServers.{is_void, sends_to, answer_query, handle_get_servers}
use dpmaster_x.Messages.GetServers.Browse.{browse-IsBrowsed, IsBrowsed}
use dpmaster_x.Servers.Slots.{IsWellFormed}
use dpmaster_x.Servers.Slots.Yield.{get_first-IsYield}

-- The handler returns, with a list that is well formed.
unfoldable pub Returns : Option (Master × List Sent) → Type 0
Returns result = (r : Master × List Sent) × (result ≡ some r) × IsWellFormed r.0.servers

answer_query-Returns :
    (m : Master) (h : Header) (addr : Address) (extended : Bool) (rand crt_time : ℕ)
    → IsWellFormed m.servers
    → Returns (answer_query m h addr extended rand crt_time)
unfolding answer_query Returns IsBrowsed
answer_query-Returns m h addr extended rand crt_time w =
    let (r, run, y) = get_first-IsYield m.servers rand crt_time w in
    let (b, browsed, w', cases) =
      browse-IsBrowsed (suc r.0.max_nb_servers) m.policy extended h.protocol
        (read_options extended h) crt_time h.gamename (started extended) r.0 r.1 y.kept
        (λ i e. ((y.found i e).3, (y.found i e).1)) in
    elim cases [
      | inl e ↦ ((record m { servers = b.after }, []), rw (run, browsed, e, answer_query) refl, w')
      | inr (out', e, built) ↦ (
        (record m { servers = b.after }, sends_to addr (finish extended out')),
        rw (run, browsed, e, answer_query) refl,
        w',
      )
    ]

-- From a well-formed server list HandleGetServers always returns, without a division by zero,
-- whatever the message, and leaves a well-formed list.
pub handle_get_servers-Returns :
    (m : Master) (msg : Text) (addr : Address) (extended : Bool) (rand crt_time : ℕ)
    → IsWellFormed m.servers
    → Returns (handle_get_servers m msg addr extended rand crt_time)
unfolding handle_get_servers Returns
handle_get_servers-Returns m msg addr extended rand crt_time w = elim (Bool-cases throttled.1) [
  | inl blocked ↦ ((m', []), rw (blocked) refl, w)
  | inr free ↦ elim (Option-cases (parse_header m.registry extended msg)) [
    | inl malformed ↦ ((m', []), rw (free, malformed) refl, w)
    | inr (h, parsed) ↦
        elim (Bool-cases (not (is_void h.gamename) && not (is_accepted m.policy h.gamename))) [
          | inl refused ↦ ((m', []), rw (free, parsed, refused) refl, w)
          | inr accepted ↦
              rw (free, parsed, accepted) (answer_query-Returns m' h addr extended rand crt_time w)
        ]
  ]
]
  where
    throttled : Clients.Clients × Bool
    throttled = blocked_by_throttle m.clients addr crt_time

    m' : Master
    m' = record m { clients = throttled.0 }
