-- ===== src/Servers/Addrmap.antt =====
-- src/servers.c: the address mappings. `gethostbyname` is a parameter, which gives the IPv4
-- address of a name, as `s_addr` holds it, if it has one. Every allocation succeeds.
pub mod Sorted
pub mod Insert
use dpmaster_x.Prelude.{
  ℕ, ◌/◌, ◌%◌, ◌^◌, Bool, true, false, ◌&&◌, ◌||◌, Option, none, some, List, [], ◌∷◌, ltb, leb,
  ◌==◌, if◌then◌else◌, uint32,
}
use mathlib.Core.Option
use dpmaster_x.Text.{Text, before_char, after_char, strtol}
use dpmaster_x.Address.{Inet, ntohs, ntohl}
use dpmaster_x.Servers.{AddressMapping}

-- Sv_InsertAddrmapIntoList: none if there is a mapping from the same address and port.
unfoldable pub insert_addrmap_into_list :
    AddressMapping → List AddressMapping → Option (List AddressMapping)
insert_addrmap_into_list new [] = some (new ∷ [])
insert_addrmap_into_list new (addrmap ∷ rest) =
    let behind = insert_addrmap_into_list new rest in
    if leb addrmap.from.s_addr new.from.s_addr
    then (if addrmap.from.s_addr == new.from.s_addr && leb new.from.sin_port addrmap.from.sin_port
        then (if addrmap.from.sin_port == new.from.sin_port
            then none
            else some (new ∷ addrmap ∷ rest))
        else Option.map (◌∷◌ addrmap) behind)
    else some (new ∷ addrmap ∷ rest)

-- The loop of Sv_GetAddrmap, with the general mapping found so far.
unfoldable pub get_addrmap_from :
    Option AddressMapping → List AddressMapping → Inet → Option AddressMapping
get_addrmap_from found [] addr = found
get_addrmap_from found (addrmap ∷ rest) addr =
    let general = addrmap.from.s_addr == addr.s_addr && addrmap.from.sin_port == 0 in
    let behind = get_addrmap_from (if general then some addrmap else found) rest addr in
    if leb addrmap.from.s_addr addr.s_addr
    then (if addrmap.from.s_addr == addr.s_addr
        then (if ltb addr.sin_port addrmap.from.sin_port
            then found
            else if addrmap.from.sin_port == addr.sin_port
            then some addrmap
            else behind)
        else behind)
    else found

-- Sv_GetAddrmap
unfoldable pub get_addrmap : List AddressMapping → Inet → Option AddressMapping
get_addrmap addrmaps addr = get_addrmap_from none addrmaps addr

-- The port behind the ':' of a name; none if it is not a valid port number.
parse_port : Option Text → Option ℕ
parse_port none = some 0
parse_port (some port) = elim (strtol port) [
  | none ↦ none
  | some (z, []) ↦
      let port_num = uint32 z % 2 ^ 16 in if port_num == 0 then none else some (ntohs port_num)
  | some (z, c ∷ rest) ↦ none
]

module _ (gethostbyname : Text → Option ℕ) where
  -- Sv_ResolveIPv4Addr
  unfoldable pub resolve_ipv4_addr : Text → Option Inet
  unfolding parse_port
  resolve_ipv4_addr name = elim (gethostbyname (before_char b':' name)) [
    | none ↦ none
    | some s_addr ↦
        Option.map (λ p. record { s_addr = s_addr; sin_port = p })
          (parse_port (after_char b':' name))
  ]

  -- Sv_ResolveAddrmap
  unfoldable pub resolve_addrmap : AddressMapping → Option AddressMapping
  unfolding resolve_ipv4_addr
  resolve_addrmap m = elim (resolve_ipv4_addr m.from_string) [
    | none ↦ none
    | some from ↦ elim (resolve_ipv4_addr m.to_string) [
      | none ↦ none
      | some to ↦
          if from.s_addr == 0 || to.s_addr == 0
          then none
          else if ntohl to.s_addr / 2 ^ 24 == 127
          then none
          else some (record m { from = from; to = to })
    ]
  ]

  -- The first loop of Sv_ResolveAddressMappings.
  unfoldable pub resolve_all : List AddressMapping → Option (List AddressMapping)
  resolve_all [] = some []
  resolve_all (m ∷ ms) = elim (resolve_addrmap m) [
    | none ↦ none
    | some r ↦ Option.map (◌∷◌ r) (resolve_all ms)
  ]

-- The second loop, which builds the sorted list.
unfoldable pub build_sorted :
    List AddressMapping → List AddressMapping → Option (List AddressMapping)
build_sorted sorted [] = some sorted
build_sorted sorted (m ∷ ms) = elim (insert_addrmap_into_list m sorted) [
  | none ↦ none
  | some sorted' ↦ build_sorted sorted' ms
]

-- Sv_ResolveAddressMappings: the new list, if every mapping is valid.
unfoldable pub resolve_address_mappings :
    (Text → Option ℕ) → List AddressMapping → Option (List AddressMapping)
unfolding resolve_all build_sorted
resolve_address_mappings gethostbyname addrmaps = elim (resolve_all gethostbyname addrmaps) [
  | none ↦ none
  | some resolved ↦ build_sorted [] resolved
]

-- Sv_AddAddressMapping: an unresolved mapping in front of the list, unless there is no '='.
unfoldable pub add_address_mapping : List AddressMapping → Text → List AddressMapping × Bool
add_address_mapping addrmaps mapping = elim (after_char b'=' mapping) [
  | none ↦ (addrmaps, false)
  | some to_ip ↦ (
    record {
      from = record { s_addr = 0; sin_port = 0 };
      to = record { s_addr = 0; sin_port = 0 };
      from_string = before_char b'=' mapping;
      to_string = to_ip;
    }
        ∷ addrmaps,
    true,
  )
]
