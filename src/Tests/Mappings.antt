-- ===== src/Tests/Mappings.antt =====
-- The theorems on the address mappings at concrete lists.
use Prim.{tt}
use dpmaster_x.Prelude.{◌≡◌, refl, List, [], ◌∷◌}
use dpmaster_x.Text.{codes}
use dpmaster_x.Address.{Inet}
use dpmaster_x.Servers.{AddressMapping}
use dpmaster_x.Servers.Addrmap.{get_addrmap, insert_addrmap_into_list}
use dpmaster_x.Servers.Addrmap.Sorted.{mapped_from, or_else, get_addrmap-mapped}
use dpmaster_x.Servers.Addrmap.Insert.{IsInsertion, insert_addrmap-mapped}

-- A mapping for every port of an address, and one for one port of it.
abbrev general : AddressMapping
general = record {
  from = record { s_addr = 16777226; sin_port = 0 };
  to = record { s_addr = 33554442; sin_port = 0 };
  from_string = codes "10.0.0.1";
  to_string = codes "10.0.0.2";
}

abbrev special : AddressMapping
special = record {
  from = record { s_addr = 16777226; sin_port = 14445 };
  to = record { s_addr = 50331658; sin_port = 0 };
  from_string = codes "10.0.0.1:27960";
  to_string = codes "10.0.0.3";
}

abbrev two_mappings : List AddressMapping
two_mappings = general ∷ special ∷ []

abbrev server_address : Inet
server_address = record { s_addr = 16777226; sin_port = 14445 }

get_addrmap-mapped_example :
    get_addrmap two_mappings server_address
    ≡ or_else (mapped_from two_mappings 16777226 14445) (mapped_from two_mappings 16777226 0)
get_addrmap-mapped_example = get_addrmap-mapped two_mappings server_address ((refl, tt), (tt, tt))

insert_addrmap-mapped_example : IsInsertion special (general ∷ []) two_mappings
unfolding insert_addrmap_into_list
insert_addrmap-mapped_example =
    insert_addrmap-mapped special (general ∷ []) two_mappings (tt, tt) refl
