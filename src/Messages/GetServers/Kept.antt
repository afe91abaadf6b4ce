-- ===== src/Messages/GetServers/Kept.antt =====
-- src/messages.c: HandleGetServers keeps the chains of the servers.
use dpmaster_x.Prelude.{
  ℕ, zero, suc, Bool, not, ◌&&◌, Option, none, some, List, ℤ, inl, inr, Bool-cases, Option-cases,
  OnSome, OnSome-at,
}
use dpmaster_x.Text.{Text}
use dpmaster_x.Address.{Address}
use dpmaster_x.Clients.{blocked_by_throttle}
use dpmaster_x.Games.{Policy, is_accepted}
use dpmaster_x.Servers.{Servers, server_at}
use dpmaster_x.Servers.Iterate.{get_first, get_next}
use dpmaster_x.Servers.Slots.Indexed.{Indexed}
use dpmaster_x.Servers.Slots.Chained.{get_first-KeepsIndex, get_next-KeepsIndex}
use dpmaster_x.Messages.Packet.{Output, started}
use dpmaster_x.Messages.Query.{Options, Header, parse_header, read_options}
use dpmaster_x.Messages.Master.{Master, Sent}
use dpmaster_x.Messages.GetServers.{
  Browsed, Round, go_on, rejected, visit, browse, is_void, answer_query, handle_get_servers,
}

-- A handler leaves an indexed list, if it has a result.
abbrev pub Keeps : Option (Master × List Sent) → Type 0
Keeps result = OnSome (λ r. Indexed r.0.servers) result

module _ (policy : Policy) (extended : Bool) (protocol : ℤ) (o : Options) (crt_time : ℕ) where
  browse-Indexed :
      (rounds : ℕ) (gamename : Text) (out : Output) (s : Servers) (first : Option ℕ)
      → Indexed s
      → OnSome
          (λ (b : Browsed). Indexed b.after)
          (browse rounds policy extended protocol o crt_time gamename out s first)
  unfolding browse
  browse-Indexed rounds gamename out s none x = x
  browse-Indexed zero gamename out s (some i) x = x
  browse-Indexed (suc rounds) gamename out s (some i) x =
      after (visit policy extended protocol o gamename out (server_at s i))
        (λ gamename' out' s' next x'. browse-Indexed rounds gamename' out' s' next x')
    where
      after :
          (r : Round)
          → ((gamename' : Text) (out' : Output) (s' : Servers) (next : Option ℕ)
              → Indexed s'
              → OnSome
                  (λ (b : Browsed). Indexed b.after)
                  (browse rounds policy extended protocol o crt_time gamename' out' s' next))
          → OnSome
              (λ (b : Browsed). Indexed b.after)
              (elim r [
                | rejected ↦ some (record { after = s; output = none })
                | go_on gamename' out' ↦ elim (get_next s crt_time) [
                  | none ↦ none
                  | some (s', next) ↦
                      browse rounds policy extended protocol o crt_time gamename' out' s' next
                ]
              ])
      after rejected more = x
      after (go_on gamename' out') more = elim (Option-cases (get_next s crt_time)) [
        | inl e ↦ rw (e) tt
        | inr ((s', next), e) ↦ rw (e) (
            more gamename' out' s' next (
              OnSome-at (λ (r : Servers × Option ℕ). Indexed r.0) (get_next-KeepsIndex s crt_time x)
                e))
      ]

answer_query-Keeps :
    (m : Master) (h : Header) (addr : Address) (extended : Bool) (rand crt_time : ℕ)
    → Indexed m.servers
    → Keeps (answer_query m h addr extended rand crt_time)
unfolding answer_query
answer_query-Keeps m h addr extended rand crt_time x =
    elim (Option-cases (get_first m.servers rand crt_time)) [
      | inl e ↦ rw (e, answer_query) tt
      | inr ((s, first), e) ↦
          let x' =
            OnSome-at (λ (r : Servers × Option ℕ). Indexed r.0)
              (get_first-KeepsIndex m.servers rand crt_time x) e in
          let run =
            browse (suc s.max_nb_servers) m.policy extended h.protocol (read_options extended h)
              crt_time h.gamename (started extended) s first in
          let kept =
            browse-Indexed m.policy extended h.protocol (read_options extended h) crt_time
              (suc s.max_nb_servers) h.gamename (started extended) s first x' in
          elim (Option-cases run) [
            | inl f ↦ rw (e, f, answer_query) tt
            | inr (b, f) ↦
                let b' = OnSome-at (λ (b : Browsed). Indexed b.after) kept f in
                elim (Option-cases b.output) [
                  | inl k ↦ rw (e, f, k, answer_query) b'
                  | inr (out, k) ↦ rw (e, f, k, answer_query) b'
                ]
          ]
    ]

pub handle_get_servers-Keeps :
    (m : Master) (msg : Text) (addr : Address) (extended : Bool) (rand crt_time : ℕ)
    → Indexed m.servers
    → Keeps (handle_get_servers m msg addr extended rand crt_time)
unfolding handle_get_servers
handle_get_servers-Keeps m msg addr extended rand crt_time x =
    let throttled = blocked_by_throttle m.clients addr crt_time in
    let m' : Master = record m { clients = throttled.0 } in
    elim (Bool-cases throttled.1) [
      | inl blocked ↦ rw (blocked) x
      | inr free ↦ elim (Option-cases (parse_header m.registry extended msg)) [
        | inl malformed ↦ rw (free, malformed) x
        | inr (h, parsed) ↦
            elim (Bool-cases (not (is_void h.gamename) && not (is_accepted m.policy h.gamename))) [
              | inl refused ↦ rw (free, parsed, refused) x
              | inr accepted ↦
                  rw (free, parsed, accepted)
                    (answer_query-Keeps m' h addr extended rand crt_time x)
            ]
      ]
    ]
