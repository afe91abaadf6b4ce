-- ===== src/Messages/Packet.antt =====
-- src/messages.c: the packets of a getservers response.
pub mod Layout
use dpmaster_x.Prelude.{
  ℕ, suc, ◌+◌, ◌*◌, ◌/◌, ◌%◌, ◌^◌, Bool, true, false, Option, none, some, List, [], ◌∷◌, ◌++◌, ltb,
  ◌==◌, if◌then◌else◌, length,
}
use mathlib.Core.List.{reverse}
use dpmaster_x.Text.{codes}
use dpmaster_x.Address.{Address, ipv4, ipv6, Inet, Inet6, ntohs, ntohl, is_ipv4}
use dpmaster_x.Servers.{Server, AddressMapping}

-- MAX_PACKET_SIZE_OUT
abbrev pub max_packet_size_out : ℕ
max_packet_size_out = 1400

-- The four bytes in front of every message.
abbrev pub out_of_band : List ℕ
out_of_band = 255 ∷ 255 ∷ 255 ∷ 255 ∷ []

unfoldable pub packet_header : Bool → List ℕ
packet_header true = out_of_band ++ codes "getserversExtResponse"
packet_header false = out_of_band ++ codes "getserversResponse"

-- The address and port of an IPv4 server, in host order; a mapping replaces them, the port only
-- if it has one.
unfoldable pub advertised : Inet → Option AddressMapping → ℕ × ℕ
advertised a none = (ntohl a.s_addr, ntohs a.sin_port)
advertised a (some m) =
    (ntohl m.to.s_addr, if m.to.sin_port == 0 then ntohs a.sin_port else ntohs m.to.sin_port)

-- A 32-bit word as it stands in memory.
abbrev pub memory_bytes : ℕ → List ℕ
memory_bytes w = w % 2 ^ 8 ∷ w / 2 ^ 8 % 2 ^ 8 ∷ w / 2 ^ 16 % 2 ^ 8 ∷ w / 2 ^ 24 % 2 ^ 8 ∷ []

-- The bytes that are written to `packet`, which is an array of `qbyte`.
unfoldable pub ipv4_entry : ℕ → ℕ → List ℕ
ipv4_entry sv_addr sv_port =
    b'\\'
    ∷ sv_addr / 2 ^ 24 % 2 ^ 8
    ∷ sv_addr / 2 ^ 16 % 2 ^ 8
    ∷ sv_addr / 2 ^ 8 % 2 ^ 8
    ∷ sv_addr % 2 ^ 8
    ∷ sv_port / 2 ^ 8 % 2 ^ 8
    ∷ sv_port % 2 ^ 8
    ∷ []

unfoldable pub ipv6_entry : Inet6 → List ℕ
ipv6_entry a =
    let sv_port = ntohs a.sin6_port in
    b'/'
    ∷ (memory_bytes a.w0
        ++ memory_bytes a.w1
        ++ memory_bytes a.w2
        ++ memory_bytes a.w3
        ++ sv_port / 2 ^ 8 % 2 ^ 8 ∷ sv_port % 2 ^ 8 ∷ [])

unfoldable pub entry_of : Address → Option AddressMapping → List ℕ
unfolding advertised ipv4_entry ipv6_entry
entry_of (ipv4 a) addrmap =
    let (sv_addr, sv_port) = advertised a addrmap in ipv4_entry sv_addr sv_port
entry_of (ipv6 a) addrmap = ipv6_entry a

-- `next_sv_size`
unfoldable pub next_sv_size : Address → ℕ
next_sv_size address = (if is_ipv4 address then 4 else 16) + 3

-- The packet that is being built, and those already sent, the last one first.
pub record Output : Type 0 where
  pub packet : List ℕ
  pub sent : List (List ℕ)

abbrev pub started : Bool → Output
started extended_request = record { packet = packet_header extended_request; sent = [] }

-- The packet is sent and begun anew if there is no room for `size` more bytes.
unfoldable pub make_room : Bool → ℕ → Output → Output
make_room extended_request size out =
    if ltb max_packet_size_out (length out.packet + size)
    then record { packet = packet_header extended_request; sent = out.packet ∷ out.sent }
    else out

unfoldable pub append : List ℕ → Output → Output
append bytes out = record out { packet = out.packet ++ bytes }

-- Adding a server that passed the filters.
unfoldable pub add_server_entry : Bool → Server → Output → Output
unfolding make_room append entry_of next_sv_size
add_server_entry extended_request sv out =
    append (entry_of sv.address sv.addrmap)
      (make_room extended_request (next_sv_size sv.address) out)

abbrev pub end_of_transmission : List ℕ
end_of_transmission = b'\\' ∷ b'E' ∷ b'O' ∷ b'T' ∷ 0 ∷ 0 ∷ 0 ∷ []

-- The end of HandleGetServers: all the packets, in the order in which they are sent.
unfoldable pub finish : Bool → Output → List (List ℕ)
unfolding make_room append
finish extended_request out =
    let last = append end_of_transmission (make_room extended_request 7 out) in
    reverse (last.packet ∷ last.sent)
