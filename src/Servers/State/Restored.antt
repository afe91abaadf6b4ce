-- ===== src/Servers/State/Restored.antt =====
-- src/servers.c: Sv_LoadState after Sv_SaveState, as a loop over the servers themselves.
use mathlib.Core.Option
use dpmaster_x.Prelude.{
  ℕ, ◌^◌, ◌<◌, ◌≡◌, ◌≢◌, refl, ◌∙◌, ap, Bool, true, false, not, ◌&&◌, Option, none, some, List, [],
  ◌∷◌, ◌++◌, take, end_of, arith, if◌then◌else◌, leb, ℤ, pos, negsuc, ltb_ℤ, pos_part, int64,
  uint64, int64-uint64, set, Bool-cases, inl, inr,
}
use dpmaster_x.Text.{Text, codes, c_string, strcmp}
use dpmaster_x.Text.Scan.{lines_of}
use dpmaster_x.Text.Scan.Lines.{lines_of-line}
use dpmaster_x.Address.{Address, ipv4, ipv6, ntohs, port_of}
use dpmaster_x.Games.{Policy, is_accepted}
use dpmaster_x.Properties.{Registry}
use dpmaster_x.Properties.Lookups.{get_properties}
use dpmaster_x.Servers.{Server, Servers, server_at}
use dpmaster_x.Servers.Lookup.{get_by_addr}
use dpmaster_x.Servers.State.{
  AddressText, StateFile, server_line, state_number, check_fields, address_of, is_saved,
  save_servers, save_state, load_line, load_lines, load_state, load_contents, restore, magic_line,
  state_of,
}
use dpmaster_x.Servers.State.RoundTrip.{
  IsPrintable, fields_of, has_text, lines_of-server_line, scan_fields-c_string,
}

-- `inet_pton` reads what `inet_ntop` wrote; an IPv6 address has no scope and no flow.
abbrev pub ReadsBack : AddressText → Text → Address → Type 0
ReadsBack api text (ipv4 a) = api.pton4 text ≡ some a.s_addr
ReadsBack api text (ipv6 a) =
    (api.pton6 text ≡ some (a.w0, a.w1, a.w2, a.w3)) × (a.sin6_scope_id ≡ 0) × (a.sin6_flowinfo ≡ 0)

-- The port as it stands in the packet.
abbrev pub wire_port : Address → ℕ
wire_port (ipv4 a) = a.sin_port
wire_port (ipv6 a) = a.sin6_port

-- A server whose saved line can be read back.
pub record IsSavable (api : AddressText) (sv : Server) : Type 0 where
  pub address : Text
  pub protocol : ℕ
  pub printed : api.ntop sv.address ≡ some address
  pub printable : IsPrintable sv address protocol
  pub has_port : port_of sv.address ≢ 0
  pub port_bits : wire_port sv.address < 2 ^ 16
  pub reads_back : ReadsBack api address sv.address

-- The servers that Sv_SaveState writes can be read back.
abbrev pub AllSavable : AddressText → ℕ → List Server → Type 0
AllSavable api saved_at [] = Unit
AllSavable api saved_at (sv ∷ svs) =
    (is_saved sv saved_at ≡ true → IsSavable api sv) × AllSavable api saved_at svs

-- The server has a game type and has not expired, and the policy accepts its game.
abbrev pub is_current : Policy → ℕ → Server → Bool
is_current policy loaded_at sv =
    has_text sv.gametype && (ltb_ℤ (pos loaded_at) sv.timeout && is_accepted policy sv.gamename)

-- The entry of a server, with what the state file keeps of a saved one.
abbrev pub written : Registry → Server → Server → Server
written r sv entry = record entry {
  timeout = sv.timeout;
  protocol = sv.protocol;
  state = sv.state;
  gamename = sv.gamename;
  gametype = sv.gametype;
  anon_properties = Option.map (λ p. p.name) (get_properties r sv.gamename);
}

-- The list with a saved server: if Sv_GetByAddr finds or adds its address, then its entry has what
-- was saved; else the list is what that call has left.
abbrev pub with_saved : Registry → ℕ → Servers → Server → Servers
with_saved r loaded_at s sv =
    let got = get_by_addr s sv.address true loaded_at in
    elim got.1 [
      | none ↦ got.0
      | some i ↦ record got.0 { servers = set got.0.servers i (written r sv (server_at got.0 i)) }
    ]

-- What becomes of a list of servers that is saved at one time and loaded at a later one: those
-- that are validated at the first time, have a game type, have not expired at the second, and
-- whose game the policy accepts, are entered in their order.
abbrev pub is_restored : Policy → ℕ → ℕ → Server → Bool
is_restored policy saved_at loaded_at sv = is_saved sv saved_at && is_current policy loaded_at sv

pub restored : Policy → Registry → ℕ → ℕ → Servers → List Server → Servers
restored policy r saved_at loaded_at s [] = s
restored policy r saved_at loaded_at s (sv ∷ svs) =
    restored policy r saved_at loaded_at
      (if is_restored policy saved_at loaded_at sv then with_saved r loaded_at s sv else s) svs

restore-with_saved :
    (r : Registry) (t : ℕ) (s : Servers) (sv : Server)
    → int64 (uint64 sv.timeout) ≡ sv.timeout
    → restore r t s sv.address (uint64 sv.timeout) sv.protocol sv.state sv.gamename sv.gametype
      ≡ with_saved r t s sv
unfolding restore
restore-with_saved r t s sv h = ap (λ z. with_saved r t s (record sv { timeout = z })) h

-- A saved server has a time in the future.
expired-saved :
    (sv : Server) (saved_at t : ℕ)
    → is_saved sv saved_at ≡ true
    → pos_part sv.timeout < 2 ^ 63
    → leb (uint64 sv.timeout) t ≡ not (ltb_ℤ (pos t) sv.timeout)
expired-saved sv saved_at t h small = saved sv.timeout small (ground (arith, h))
  where
    saved :
        (z : ℤ)
        → pos_part z < 2 ^ 63
        → ltb_ℤ (pos saved_at) z ≡ true
        → leb (uint64 z) t ≡ not (ltb_ℤ (pos t) z)
    saved (pos m) small later = ground arith
    saved (negsuc m) small later = absurd (ground (arith, later))

ntohs-ntohs : (p : ℕ) → p < 2 ^ 16 → ntohs (ntohs p) ≡ p
ntohs-ntohs p h = omega arith

address_of-fields_of :
    (api : AddressText) (sv : Server) (text : Text) (address : Address)
    → sv.address ≡ address
    → wire_port address < 2 ^ 16
    → ReadsBack api text address
    → address_of api (fields_of sv text) ≡ some address
unfolding address_of
address_of-fields_of api sv text (ipv4 a) e h k = rw (e, k, ntohs-ntohs a.sin_port h) refl
address_of-fields_of api sv text (ipv6 a) e h k =
    rw (e, k.0, ntohs-ntohs a.sin6_port h) (cc (k.1, k.2))

state_of-state_number :
    (sv : Server) (t : ℕ)
    → is_saved sv t ≡ true
    → state_of (pos (state_number sv.state)) ≡ some sv.state
state_of-state_number sv t h = ground (arith, h)

check_fields-fields_of :
    (policy : Policy) (sv : Server) (text : Text) (saved_at t protocol : ℕ)
    → is_saved sv saved_at ≡ true
    → IsPrintable sv text protocol
    → port_of sv.address ≢ 0
    → check_fields policy (fields_of sv text) t
      ≡ (if ltb_ℤ (pos t) sv.timeout && is_accepted policy sv.gamename then some sv.state else none)
unfolding check_fields
check_fields-fields_of policy sv text saved_at t protocol h p n =
    elim (Bool-cases (ltb_ℤ (pos t) sv.timeout)) [
      | inr late ↦ rw (expired-saved sv saved_at t h p.timeout.0, late, check_fields) refl
      | inl early ↦
          rw
            (
              expired-saved sv saved_at t h p.timeout.0,
              early,
              p.has_protocol.0,
              state_of-state_number sv saved_at h,
              check_fields,
            )
            (ground arith)
    ]

module _ (api : AddressText) (policy : Policy) (r : Registry) (saved_at t : ℕ) where
  load_line-server_line :
      (s : Servers) (sv : Server) (v : IsSavable api sv)
      → is_saved sv saved_at ≡ true
      → load_line api policy r t s (server_line sv v.address)
        ≡ (if is_current policy t sv then with_saved r t s sv else s)
  unfolding load_line
  load_line-server_line s sv v h = elim (Bool-cases (has_text sv.gametype)) [
    | inr void ↦ rw (scan_fields-c_string sv v.address v.protocol v.printable, void, load_line) refl
    | inl typed ↦
        rw
          (
            scan_fields-c_string sv v.address v.protocol v.printable,
            typed,
            check_fields-fields_of policy sv v.address saved_at t v.protocol h v.printable
                v.has_port,
            load_line,
          )
          (elim (Bool-cases (ltb_ℤ (pos t) sv.timeout && is_accepted policy sv.gamename)) [
            | inr out ↦ rw (out, load_line) refl
            | inl inside ↦
                rw
                  (
                    inside,
                    address_of-fields_of api sv v.address sv.address refl v.port_bits v.reads_back,
                    load_line,
                  )
                  (restore-with_saved r t s sv
                    (int64-uint64 sv.timeout v.printable.timeout.0 v.printable.timeout.1))
          ])
  ]

  save_servers-saved :
      (sv : Server) (svs : List Server) (v : IsSavable api sv)
      → is_saved sv saved_at ≡ true
      → save_servers api (sv ∷ svs) saved_at
        ≡ server_line sv v.address ++ save_servers api svs saved_at
  unfolding save_servers
  save_servers-saved sv svs v h = rw (h, v.printed, save_servers) refl

  save_servers-skipped :
      (sv : Server) (svs : List Server)
      → is_saved sv saved_at ≡ false
      → save_servers api (sv ∷ svs) saved_at ≡ save_servers api svs saved_at
  unfolding save_servers
  save_servers-skipped sv svs h = rw (h, save_servers) refl

  load_lines-save_servers :
      (s : Servers) (svs : List Server)
      → AllSavable api saved_at svs
      → load_lines api policy r t s (lines_of 511 (save_servers api svs saved_at))
        ≡ restored policy r saved_at t s svs
  unfolding load_lines restored
  load_lines-save_servers s [] v = unfold save_servers lines_of in refl
  load_lines-save_servers s (sv ∷ svs) (v, vs) = elim (Bool-cases (is_saved sv saved_at)) [
    | inr skipped ↦
        rw (save_servers-skipped sv svs skipped, skipped) (load_lines-save_servers s svs vs)
    | inl h ↦
        let line = server_line sv (v h).address in
        let rest = save_servers api svs saved_at in
        let s' = if is_current policy t sv then with_saved r t s sv else s in
        rw (h) (
          ap (λ file. load_lines api policy r t s (lines_of 511 file))
            (save_servers-saved sv svs (v h) h)
          ∙ ap (load_lines api policy r t s)
              (lines_of-server_line sv (v h).address (v h).protocol (v h).printable rest)
          ∙ ap (λ s'. load_lines api policy r t s' (lines_of 511 rest))
              (load_line-server_line s sv (v h) h)
          ∙ load_lines-save_servers s' svs vs)
  ]

lines_of-magic_line :
    (rest : Text) → lines_of 511 (magic_line ++ rest) ≡ magic_line ∷ lines_of 511 rest
lines_of-magic_line rest =
    lines_of-line 511 (codes "dpmaster-state-v1") rest (omega arith) (omega arith)

load_contents-magic_line :
    (api : AddressText) (policy : Policy) (r : Registry) (t : ℕ) (s : Servers) (lines : List Text)
    → load_contents api policy r t s (magic_line ∷ lines)
      ≡ (load_lines api policy r t s lines, true)
unfolding load_contents c_string strcmp
load_contents-magic_line api policy r t s lines = refl

-- If the servers of the used slots that Sv_SaveState writes can be read back, and it commits the
-- file, then Sv_LoadState on that file returns true, and the list is the one that results as
-- follows from each server, in their order, that was validated and had not expired when it was
-- saved, has a game type, has not expired when it is loaded, and whose game the policy accepts:
-- Sv_GetByAddr is called for its address, and the entry that it finds or adds, if there is one,
-- gets the saved time, protocol, state, game name and game type, and the properties of the game.
-- A server can be read back if its address has a text of at most 45 bytes from which inet_pton
-- gives that address, without an IPv6 scope and flow, its port is not 0, its protocol is above
-- 0, its time fits a time_t and its protocol an int, its game name has 1 to 63 bytes and its
-- game type at most 31, and these texts have no white space and no null byte.
pub load_state-save_state :
    (api : AddressText) (policy : Policy) (r : Registry) (saved_at loaded_at : ℕ)
    (saved s : Servers) (path : Text) (contents : Option Text)
    → AllSavable api saved_at (take (end_of saved.last_used_slot) saved.servers)
    → let file : StateFile = record { path = some path; contents = contents } in
      load_state api policy r true loaded_at (save_state api true true saved saved_at file).0 s ≡ (
        restored policy r saved_at loaded_at s (take (end_of saved.last_used_slot) saved.servers),
        true,
      )
unfolding load_state save_state
load_state-save_state api policy r saved_at loaded_at saved s path contents v =
    ap (load_contents api policy r loaded_at s)
      (lines_of-magic_line (save_servers api svs saved_at))
    ∙ load_contents-magic_line api policy r loaded_at s
        (lines_of 511 (save_servers api svs saved_at))
    ∙ ap (λ x. (x, true)) (load_lines-save_servers api policy r saved_at loaded_at s svs v)
  where
    svs : List Server
    svs = take (end_of saved.last_used_slot) saved.servers
