-- ===== src/Startup/Ready.antt =====
-- src/dpmaster.c: the server list that the main loop starts with.
use dpmaster_x.Prelude.{
  ℕ, ◌^◌, ◌<◌, ◌≡◌, inl, inr, true, not, Option, some, List, arith, Bool-cases, Option-cases,
  OnSome, OnSome-at, ◌>>=◌, subst, sym,
}
use dpmaster_x.Text.{Text}
use dpmaster_x.Properties.{Registry}
use dpmaster_x.Clients
use dpmaster_x.Servers.{AddressMapping}
use dpmaster_x.Servers.Addrmap.{resolve_address_mappings}
use dpmaster_x.Servers.Config.{init}
use dpmaster_x.Servers.Slots.Start.{init_unused-IsWellFormed, init-IsCalm, init-Indexed}
use dpmaster_x.Servers.State.{AddressText}
use dpmaster_x.Servers.State.Safe.{IsReady, IsTimely, load_state-IsReady}
use dpmaster_x.Messages.Master.{Master}
use dpmaster_x.CommandLine.{Program, Memory}
use dpmaster_x.CommandLine.Settings.{IsConfigured}
use dpmaster_x.CommandLine.Parse.{parse_command_line, is_ok, Outcome}
use dpmaster_x.CommandLine.Parse.Configured.{parse_command_line-IsConfigured}
use dpmaster_x.Startup.{System, initial_program, unsecure_init, secure_init, start, master_of}

-- There is no memory for an array of 2^31 servers.
abbrev pub IsBounded : System → Type 0
IsBounded sys = (n : ℕ) → sys.server_array n ≡ true → n < 2 ^ 31

pub initial_program-IsConfigured :
    (r : Registry) (contents : Option Text) → IsConfigured contents (initial_program r contents)
initial_program-IsConfigured r contents = ground arith

with_addrmaps-IsConfigured :
    (contents : Option Text) (p : Program) (addrmaps : List AddressMapping)
    → IsConfigured contents p
    → IsConfigured contents (record p { servers = record (p.servers) { addrmaps = addrmaps } })
with_addrmaps-IsConfigured contents p addrmaps c = ground arith

secure_init-IsReady :
    (api : AddressText) (sys : System) (crt_time : ℕ) (contents : Option Text) (p : Program)
    → IsBounded sys
    → IsTimely contents
    → IsConfigured contents p
    → OnSome (λ (q : Program). IsReady crt_time q.servers) (secure_init api sys crt_time p)
unfolding secure_init
secure_init-IsReady api sys crt_time contents p b timely c = elim (Bool-cases (not sys.sockets)) [
  | inl e ↦ rw (e, secure_init) tt
  | inr e ↦ elim (Bool-cases (sys.server_array p.servers.max_nb_servers)) [
    | inr no_array ↦ rw (e, no_array, secure_init) (unfold init in tt)
    | inl array ↦ elim (Bool-cases (not (init true sys.server_table p.servers).1)) [
      | inl no_table ↦ rw (e, array, no_table, secure_init) tt
      | inr table ↦
          elim (Bool-cases
            (Clients.init (sys.client_array p.clients.max_nb_clients) sys.client_table
              p.clients).1) [
                | inr no_clients ↦ rw (e, array, table, no_clients, secure_init) tt
                | inl clients ↦
                    rw (e, array, table, clients, secure_init)
                      (load_state-IsReady api p.policy p.registry crt_time sys.state_file
                        p.state_file (init true sys.server_table p.servers).0
                        (subst IsTimely (sym c.state_contents) timely)
                        (filled (b p.servers.max_nb_servers array)))
              ]
    ]
  ]
]
  where
    filled :
        p.servers.max_nb_servers < 2 ^ 31
        → IsReady crt_time (init true sys.server_table p.servers).0
    filled small = (
      init_unused-IsWellFormed p.servers sys.server_table c.max_nb_servers.0 small c.unused.0
          c.unused.1 c.unused.2,
      init-IsCalm p.servers sys.server_table crt_time,
      init-Indexed p.servers sys.server_table,
    )

-- If the system has no memory for an array of 2^31 servers, and no line of the state file that
-- can be read has an expiry of 2^63 or more, then whatever the arguments and what else the
-- system grants, main enters its loop, if it does, with a well-formed server list in which no
-- server has timed out, and whose hash chains hold exactly the servers in use, each at the hash
-- of its address.
pub start-IsReady :
    (api : AddressText) (gethostbyname : Text → Option ℕ) (sys : System) (m : Memory) (crt_time : ℕ)
    (r : Registry) (contents : Option Text) (args : List Text)
    → IsBounded sys
    → IsTimely contents
    → OnSome
        (λ (q : Master). IsReady crt_time q.servers)
        (start api gethostbyname sys m crt_time (initial_program r contents) args)
unfolding start unsecure_init secure_init
start-IsReady api gethostbyname sys m crt_time r contents args b timely =
    elim (Option-cases (parse_command_line p m args)) [
      | inl e ↦ rw (e, start) tt
      | inr (o, e) ↦ elim (Bool-cases (not (is_ok o.status))) [
        | inl k ↦ rw (e, k, start) tt
        | inr k ↦ elim (Bool-cases (not sys.log)) [
          | inl no_log ↦ rw (e, k, no_log, start) tt
          | inr log ↦
              elim (Option-cases
                (resolve_address_mappings gethostbyname o.program.servers.addrmaps)) [
                  | inl u ↦ rw (e, k, log, u, start) tt
                  | inr (addrmaps, u) ↦ elim (Bool-cases sys.addresses) [
                    | inr no_address ↦ rw (e, k, log, u, no_address, start) tt
                    | inl addresses ↦ elim (Bool-cases (not sys.security)) [
                      | inl no_security ↦ rw (e, k, log, u, addresses, no_security, start) tt
                      | inr security ↦
                          rw (e, k, log, u, addresses, security, start)
                            (secured (mapped o addrmaps) (
                              with_addrmaps-IsConfigured contents o.program addrmaps
                                (configured o e)))
                    ]
                  ]
                ]
        ]
      ]
    ]
  where
    p : Program
    p = initial_program r contents

    configured :
        (o : Outcome) → parse_command_line p m args ≡ some o → IsConfigured contents o.program
    configured o e =
        OnSome-at (λ (o : Outcome). IsConfigured contents o.program)
          (parse_command_line-IsConfigured p m args (initial_program-IsConfigured r contents)) e

    mapped : Outcome → List AddressMapping → Program
    mapped o addrmaps = record (o.program) {
      servers = record (o.program.servers) { addrmaps = addrmaps };
    }

    secured :
        (q : Program)
        → IsConfigured contents q
        → OnSome
            (λ (s : Master). IsReady crt_time s.servers)
            (secure_init api sys crt_time q >>= λ q. some (master_of q))
    secured q c = elim (Option-cases (secure_init api sys crt_time q)) [
      | inl e ↦ rw (e) tt
      | inr (q', e) ↦ rw (e) (
          OnSome-at (λ (s : Program). IsReady crt_time s.servers)
            (secure_init-IsReady api sys crt_time contents q b timely c) e)
    ]
