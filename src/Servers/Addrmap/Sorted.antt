-- ===== src/Servers/Addrmap/Sorted.antt =====
-- src/servers.c: the sorted list of address mappings, and Sv_GetAddrmap over it.
use dpmaster_x.Prelude.{
  ℕ, ◌≡◌, refl, ap, ◌∙◌, Bool, true, false, ◌&&◌, ◌||◌, Option, none, some, List, [], ◌∷◌, ltb, leb,
  ◌==◌, if◌then◌else◌, arith, Bool-cases, inl, inr,
}
use dpmaster_x.Address.{Inet}
use dpmaster_x.Servers.{AddressMapping}
use dpmaster_x.Servers.Addrmap.{get_addrmap_from, get_addrmap}

-- A mapping comes before an address and port, by address first.
abbrev pub before : AddressMapping → ℕ → ℕ → Bool
before m s_addr port =
    ltb m.from.s_addr s_addr || (m.from.s_addr == s_addr && ltb m.from.sin_port port)

abbrev pub AllBehind : AddressMapping → List AddressMapping → Type 0
AllBehind m [] = Unit {0}
AllBehind m (x ∷ xs) = (before m x.from.s_addr x.from.sin_port ≡ true) × AllBehind m xs

-- Strictly ascending by address and port.
abbrev pub IsAscending : List AddressMapping → Type 0
IsAscending [] = Unit {0}
IsAscending (m ∷ ms) = AllBehind m ms × IsAscending ms

-- The first mapping from an address and port.
unfoldable pub mapped_from : List AddressMapping → ℕ → ℕ → Option AddressMapping
mapped_from [] s_addr port = none
mapped_from (m ∷ ms) s_addr port =
    if m.from.s_addr == s_addr && m.from.sin_port == port
    then some m
    else mapped_from ms s_addr port

abbrev pub or_else : Option AddressMapping → Option AddressMapping → Option AddressMapping
or_else none b = b
or_else (some a) b = some a

or_else-none_right : (a : Option AddressMapping) → or_else a none ≡ a
or_else-none_right none = refl
or_else-none_right (some a) = refl

-- Nothing is found at or before the address of a mapping that comes before all.
mapped_from-behind :
    (m : AddressMapping) (ms : List AddressMapping) (s_addr port : ℕ)
    → AllBehind m ms
    → before m s_addr port ≡ false
    → mapped_from ms s_addr port ≡ none
unfolding mapped_from
mapped_from-behind m [] s_addr port a h = refl
mapped_from-behind m (x ∷ xs) s_addr port (b, a) h =
    ground (arith, b, h, mapped_from-behind m xs s_addr port a h)

get_addrmap_from-mapped :
    (found : Option AddressMapping) (maps : List AddressMapping) (addr : Inet)
    → IsAscending maps
    → get_addrmap_from found maps addr
      ≡ or_else
          (mapped_from maps addr.s_addr addr.sin_port)
          (or_else (mapped_from maps addr.s_addr 0) found)
unfolding get_addrmap_from mapped_from
get_addrmap_from-mapped found [] addr a = refl
get_addrmap_from-mapped found (m ∷ ms) addr (b, a) =
    elim (Bool-cases (leb m.from.s_addr addr.s_addr)) [
      | inr above ↦ ground (
        arith,
        above,
        mapped_from-behind m ms addr.s_addr addr.sin_port b,
        mapped_from-behind m ms addr.s_addr 0 b,
      )
      | inl below ↦ elim (Bool-cases (m.from.s_addr == addr.s_addr)) [
        | inr lower ↦ ground (arith, below, lower, get_addrmap_from-mapped found ms addr a)
        | inl same ↦ elim (Bool-cases (ltb addr.sin_port m.from.sin_port)) [
          | inl passed ↦ ground (
            arith,
            below,
            same,
            passed,
            mapped_from-behind m ms addr.s_addr addr.sin_port b,
            mapped_from-behind m ms addr.s_addr 0 b,
          )
          | inr reached ↦ elim (Bool-cases (m.from.sin_port == addr.sin_port)) [
            | inl exact ↦ ground (arith, below, same, reached, exact)
            | inr smaller ↦ elim (Bool-cases (m.from.sin_port == 0)) [
              | inl general ↦ ground (
                arith,
                below,
                same,
                reached,
                smaller,
                general,
                get_addrmap_from-mapped (some m) ms addr a,
                mapped_from-behind m ms addr.s_addr 0 b,
              )
              | inr other ↦ ground (
                arith,
                below,
                same,
                reached,
                smaller,
                other,
                get_addrmap_from-mapped found ms addr a,
              )
            ]
          ]
        ]
      ]
    ]

-- On a list of address mappings that is strictly ascending by address and port, Sv_GetAddrmap
-- finds the mapping from the address and port of a server if there is one, and otherwise the one
-- from its address and port 0, if there is one.
pub get_addrmap-mapped :
    (maps : List AddressMapping) (addr : Inet)
    → IsAscending maps
    → get_addrmap maps addr
      ≡ or_else (mapped_from maps addr.s_addr addr.sin_port) (mapped_from maps addr.s_addr 0)
unfolding get_addrmap
get_addrmap-mapped maps addr a =
    get_addrmap_from-mapped none maps addr a
    ∙ ap (or_else (mapped_from maps addr.s_addr addr.sin_port))
        (or_else-none_right (mapped_from maps addr.s_addr 0))
