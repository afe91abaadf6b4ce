-- ===== src/Messages/Packet/Layout.antt =====
-- src/messages.c: the size, the header and the contents of the packets of a response.
use mathlib.Core.List.{reverse}
use dpmaster_x.Prelude.{ℕ, ◌≤◌, ◌≡◌, refl, Bool, List, [], ◌∷◌, ◌++◌, length, drop}
use dpmaster_x.Address.{Address, ipv4, ipv6}
use dpmaster_x.Servers.{Server}
use dpmaster_x.Messages.Packet.{
  Output, packet_header, max_packet_size_out, add_server_entry, entry_of, next_sv_size,
}

-- The loop's calls of `add_server_entry`, in the order of the servers.
unfoldable pub add_all : Bool → List Server → Output → Output
add_all extended_request [] out = out
add_all extended_request (sv ∷ svs) out =
    add_all extended_request svs (add_server_entry extended_request sv out)

-- A packet fits, and begins with the header.
pub record IsPacket (extended_request : Bool) (packet : List ℕ) : Type 0 where
  pub body : List ℕ
  pub framed : packet ≡ packet_header extended_request ++ body
  pub fits : length packet ≤ max_packet_size_out

abbrev pub AllPackets : Bool → List (List ℕ) → Type 0
AllPackets e [] = Unit {0}
AllPackets e (p ∷ ps) = IsPacket e p × AllPackets e ps

-- What the packets carry behind their headers.
abbrev pub contents : Bool → List (List ℕ) → List ℕ
contents e [] = []
contents e (p ∷ ps) = drop (length (packet_header e)) p ++ contents e ps

-- The entries of the servers.
abbrev pub entries : List Server → List ℕ
entries [] = []
entries (sv ∷ svs) = entry_of sv.address sv.addrmap ++ entries svs

-- An entry has the size that is reserved for it.
pub entry_of-length :
    (sv : Server) → length (entry_of sv.address sv.addrmap) ≡ next_sv_size sv.address
unfolding entry_of next_sv_size
entry_of-length sv = go sv.address
  where
    go : (a : _) → length (entry_of a sv.addrmap) ≡ next_sv_size a
    go (ipv4 a) = refl
    go (ipv6 a) = refl

-- The output carries `bytes`.
record Carries (e : Bool) (out : Output) (bytes : List ℕ) : Type 0 where
  current : IsPacket e out.packet
  earlier : AllPackets e out.sent
  total : contents e (reverse out.sent) ++ drop (length (packet_header e)) out.packet ≡ bytes
