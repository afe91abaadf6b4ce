-- ===== src/Servers/Addrmap/Insert.antt =====
-- src/servers.c: Sv_InsertAddrmapIntoList and the sorted list of address mappings.
use Prim.{tt}
use dpmaster_x.Prelude.{
  ℕ, ◌≡◌, refl, true, ◌&&◌, some, List, [], ◌∷◌, leb, ◌==◌, if◌then◌else◌, arith, Bool-cases,
  Option-cases, inl, inr, OnSome, OnSome-at,
}
use dpmaster_x.Servers.{AddressMapping}
use dpmaster_x.Servers.Addrmap.{insert_addrmap_into_list}
use dpmaster_x.Servers.Addrmap.Sorted.{before, AllBehind, IsAscending, mapped_from}

-- What an insertion does to a sorted list.
pub record IsInsertion (new : AddressMapping) (old maps : List AddressMapping) : Type 0 where
  pub ascending : IsAscending maps
  pub behind :
      (m : AddressMapping)
      → AllBehind m old
      → before m new.from.s_addr new.from.sin_port ≡ true
      → AllBehind m maps
  pub mapped :
      (s_addr port : ℕ)
      → mapped_from maps s_addr port ≡ (
          if new.from.s_addr == s_addr && new.from.sin_port == port
          then some new
          else mapped_from old s_addr port)

AllBehind-trans :
    (a b : AddressMapping) (maps : List AddressMapping)
    → before a b.from.s_addr b.from.sin_port ≡ true
    → AllBehind b maps
    → AllBehind a maps
AllBehind-trans a b [] h k = tt
AllBehind-trans a b (m ∷ ms) h (k, ks) = (ground (arith, h, k), AllBehind-trans a b ms h ks)

front-IsInsertion :
    (new m : AddressMapping) (ms : List AddressMapping)
    → IsAscending (m ∷ ms)
    → before new m.from.s_addr m.from.sin_port ≡ true
    → IsInsertion new (m ∷ ms) (new ∷ m ∷ ms)
unfolding mapped_from
front-IsInsertion new m ms (b, a) h = record {
  ascending = ((h, AllBehind-trans new m ms h b), (b, a));
  behind = λ x k l. (l, k);
  mapped = λ s p. refl;
}

behind-IsInsertion :
    (new m : AddressMapping) (ms maps : List AddressMapping)
    → IsAscending (m ∷ ms)
    → before m new.from.s_addr new.from.sin_port ≡ true
    → IsInsertion new ms maps
    → IsInsertion new (m ∷ ms) (m ∷ maps)
unfolding mapped_from
behind-IsInsertion new m ms maps (b, a) h i = record {
  ascending = (i.behind m b h, i.ascending);
  behind = λ x k l. (k.0, i.behind x k.1 l);
  mapped = λ s p. ground (arith, h, i.mapped s p);
}

insert-IsInsertion :
    (new : AddressMapping) (maps : List AddressMapping)
    → IsAscending maps
    → OnSome (IsInsertion new maps) (insert_addrmap_into_list new maps)
unfolding insert_addrmap_into_list mapped_from
insert-IsInsertion new [] a = record {
  ascending = (tt, tt);
  behind = λ m k l. (l, tt);
  mapped = λ s p. refl;
}
insert-IsInsertion new (m ∷ ms) (b, a) = elim (Bool-cases (leb m.from.s_addr new.from.s_addr)) [
  | inr above ↦
      rw (above, insert_addrmap_into_list)
        (front-IsInsertion new m ms (b, a) (ground (arith, above)))
  | inl below ↦
      elim (Bool-cases
        (m.from.s_addr == new.from.s_addr && leb new.from.sin_port m.from.sin_port)) [
          | inr later ↦ elim (Option-cases (insert_addrmap_into_list new ms)) [
            | inl taken ↦ rw (below, later, taken, insert_addrmap_into_list) tt
            | inr (maps, e) ↦
                rw (below, later, e, insert_addrmap_into_list)
                  (behind-IsInsertion new m ms maps (b, a) (ground (arith, below, later))
                    (OnSome-at (IsInsertion new ms) (insert-IsInsertion new ms a) e))
          ]
          | inl here ↦ elim (Bool-cases (m.from.sin_port == new.from.sin_port)) [
            | inl taken ↦ rw (below, here, taken, insert_addrmap_into_list) tt
            | inr free ↦
                rw (below, here, free, insert_addrmap_into_list)
                  (front-IsInsertion new m ms (b, a) (ground (arith, here, free)))
          ]
        ]
]

-- If Sv_InsertAddrmapIntoList inserts a mapping into a list that is strictly ascending by
-- address and port, the new list is strictly ascending, and has the new mapping for its address
-- and port and the old ones for all others.
pub insert_addrmap-mapped :
    (new : AddressMapping) (old maps : List AddressMapping)
    → IsAscending old
    → insert_addrmap_into_list new old ≡ some maps
    → IsInsertion new old maps
insert_addrmap-mapped new old maps a e =
    OnSome-at (IsInsertion new old) (insert-IsInsertion new old a) e
