-- ===== src/Messages/GetServers/Listing.antt =====
-- src/messages.c: HandleGetServers lists every server that was asked for.
use mathlib.Core.Path.{ap₂}
use dpmaster_x.Prelude.{
  ◌∷◌, ℕ, ◌≡◌, refl, ap, Bool, true, false, Option, none, some, List, arith, length, if◌then◌else◌,
  OnSome-at,
}
use dpmaster_x.Text.{Text}
use dpmaster_x.Address.{Address}
use dpmaster_x.Clients.{blocked_by_throttle}
use dpmaster_x.Games.{is_accepted}
use dpmaster_x.Servers.{Servers}
use dpmaster_x.Servers.Iterate.{get_first}
use dpmaster_x.Servers.Slots.{IsWellFormed, IsCalmFrom, is_unused_at}
use dpmaster_x.Servers.Slots.Yield.{IsYield, get_first-IsYield}
use dpmaster_x.Servers.Slots.Visits.{
  iterate, visits, occurrences, iterate-occurrences, IsDue, get_first-IsDue, calm_after,
}
use dpmaster_x.Messages.Packet.{started, finish}
use dpmaster_x.Messages.Packet.Layout.{add_all}
use dpmaster_x.Messages.Query.{Header, parse_header, read_options}
use dpmaster_x.Messages.Master.{Master, Sent}
use dpmaster_x.Messages.GetServers.{is_void, sends_to, browse, answer_query, handle_get_servers}
use dpmaster_x.Messages.GetServers.Named.{selected, browse-visits}

-- The packets with the wanted servers of some slots.
abbrev pub response : Master → Header → Address → Bool → List ℕ → List Sent
response m h addr extended slots =
    let o = read_options extended h in
    sends_to addr (
      finish extended (
        add_all extended (selected h.protocol o h.gamename m.servers.servers slots)
          (started extended)))

answer_query-lists :
    (m : Master) (h : Header) (addr : Address) (extended : Bool) (rand crt_time : ℕ)
    → IsWellFormed m.servers
    → IsCalmFrom m.servers 0 crt_time
    → is_void h.gamename ≡ false
    → (s : Servers) × (answer_query m h addr extended rand crt_time
        ≡ some (
          record m { servers = s },
          response m h addr extended (iterate m.servers rand crt_time),
        ))
unfolding answer_query iterate browse selected add_all
answer_query-lists m h addr extended rand crt_time w calm named =
    let (r, run, y) = get_first-IsYield m.servers rand crt_time w in
    after r run y
      (OnSome-at (IsDue m.servers 0) (get_first-IsDue m.servers rand crt_time 0 w calm) run)
  where
    after :
        (r : Servers × Option ℕ)
        → get_first m.servers rand crt_time ≡ some r
        → IsYield crt_time r
        → IsDue m.servers 0 r
        → (s : Servers) × (answer_query m h addr extended rand crt_time
            ≡ some (
              record m { servers = s },
              response m h addr extended (iterate m.servers rand crt_time),
            ))
    after (s', none) run y a = (s', rw (run, iterate, answer_query) refl)
    after (s', some i) run y a =
        let (s, e) =
          browse-visits m.policy extended h.protocol (read_options extended h) crt_time h.gamename
            named s'.max_nb_servers (started extended) s' i y.kept (y.found i refl).3
            (calm_after m.servers s' crt_time a.0 calm) in
        let rounds : s'.max_nb_servers ≡ m.servers.max_nb_servers =
          omega (arith, y.kept.size, w.size, ap length a.0) in
        (
          s,
          rw (run, e, iterate, answer_query)
              (ap₂
                (λ servers rounds. some (
                  (record m { servers = s }),
                  sends_to addr (
                      finish extended (
                        add_all extended
                          (selected h.protocol (read_options extended h) h.gamename servers
                            (i ∷ visits rounds s' crt_time))
                          (started extended))),
                ))
                a.0 rounds),
        )

-- HandleGetServers lists exactly the servers asked for: on a well-formed list in which no server
-- has timed out, for a client that is not throttled and a request that is valid and names an
-- accepted game, it sends the packets to which, of every slot in use once and of no other, the
-- server was added if it is validated, has the protocol and the game of the request, and passes
-- its options and game type.
pub handle_get_servers-lists :
    (m : Master) (msg : Text) (addr : Address) (extended : Bool) (rand crt_time : ℕ) (h : Header)
    → IsWellFormed m.servers
    → IsCalmFrom m.servers 0 crt_time
    → (blocked_by_throttle m.clients addr crt_time).1 ≡ false
    → parse_header m.registry extended msg ≡ some h
    → is_void h.gamename ≡ false
    → is_accepted m.policy h.gamename ≡ true
    → (slots : List ℕ) × ((i : ℕ)
        → occurrences i slots ≡ (if is_unused_at m.servers.servers i then 0 else 1))
      × (s : Servers) × (handle_get_servers m msg addr extended rand crt_time
          ≡ some (
            record m { servers = s; clients = (blocked_by_throttle m.clients addr crt_time).0 },
            response m h addr extended slots,
          ))
unfolding handle_get_servers
handle_get_servers-lists m msg addr extended rand crt_time h w calm free parsed named accepted =
    let throttled = blocked_by_throttle m.clients addr crt_time in
    let m' : Master = record m { clients = throttled.0 } in
    let (s, e) = answer_query-lists m' h addr extended rand crt_time w calm named in
    (
      iterate m.servers rand crt_time,
      λ i. iterate-occurrences m.servers rand crt_time i w calm,
      s,
      rw (free, parsed, named, accepted) e,
    )
