-- ===== src/Servers/Slots/Searched.antt =====
-- src/servers.c: Sv_IsActive and Sv_GetByAddr_Internal keep the chains of the hash table.
use dpmaster_x.Prelude.{
  ltb_ℤ, pos, ℕ, zero, suc, ◌≡◌, ◌≢◌, refl, inl, inr, Bool, true, false, ◌&&◌, Option, none, some,
  List, [], ◌∷◌, arith, ◌==◌, Index, Bool-cases,
}
use dpmaster_x.Address.{Address, same_family, is_same_address}
use dpmaster_x.Users.{update}
use dpmaster_x.Users.Links.{mem, erase, Seg, Seg-first, Seg-next, Distinct}
use dpmaster_x.Servers.{Servers, server_at, is_active, remove}
use dpmaster_x.Servers.Lookup.{search_chain}
use dpmaster_x.Servers.Slots.{is_unused_at}
use dpmaster_x.Servers.Slots.Finds.{round_at, search_chain-round}
use dpmaster_x.Servers.Slots.Indexed.{
  IsIndexed, Indexed, hash_at, moved, move_on_top-IsIndexed, remove-IsIndexed, taken-stays,
}

-- The chain of a hash goes on behind each of its servers.
mem-next :
    (next : ℕ → Option ℕ) (i j : ℕ) (xs : List ℕ) (cur : Option ℕ)
    → Seg next xs cur
    → mem i xs ≡ true
    → next i ≡ some j
    → mem j xs ≡ true
mem-next next i j [] cur s m e = cc
mem-next next i j (x ∷ xs) cur s m e = ground (arith, Seg-next next i j x xs s.1 m e)

-- No server stands behind itself.
next-apart :
    (next : ℕ → Option ℕ) (i j : ℕ) (xs : List ℕ) (cur : Option ℕ)
    → Seg next xs cur
    → Distinct xs
    → mem i xs ≡ true
    → next i ≡ some j
    → j ≢ i
next-apart next i j [] cur s d m e = cc
next-apart next i j (x ∷ xs) cur s d m e = elim (Bool-cases (i == x)) [
  | inl same ↦ ground (arith, Seg-first next xs (next x) j s.1, e, d.0)
  | inr other ↦ next-apart next i j xs (next x) s.1 d.1 (ground arith) e
]

pub is_active-late :
    (s : Servers) (i crt_time : ℕ)
    → is_unused_at s.servers i ≡ false
    → ltb_ℤ (server_at s i).timeout (pos crt_time) ≡ true
    → is_active s i crt_time ≡ (remove s i, false)
unfolding is_active
is_active-late s i crt_time used late = rw (used, late) refl

is_active-early :
    (s : Servers) (i crt_time : ℕ)
    → is_unused_at s.servers i ≡ false
    → ltb_ℤ (server_at s i).timeout (pos crt_time) ≡ false
    → is_active s i crt_time ≡ (s, true)
unfolding is_active
is_active-early s i crt_time used early = rw (used, early) refl

-- The search removes servers that have timed out, and moves the one that it finds.
pub search_chain-Indexed :
    (s : Servers) (address : Address) (hash crt_time rounds : ℕ) (first : Index) (count : ℕ)
    (chains : ℕ → List ℕ)
    → IsIndexed s chains
    → ((i : ℕ) → first ≡ some i → mem i (chains hash) ≡ true)
    → Indexed (search_chain s address hash crt_time rounds first count).after
unfolding search_chain round_at
search_chain-Indexed s address hash crt_time rounds none count chains x m = (chains, x)
search_chain-Indexed s address hash crt_time zero (some i) count chains x m = (chains, x)
search_chain-Indexed s address hash crt_time (suc rounds) (some i) count chains x m =
    elim (Bool-cases (ltb_ℤ (server_at s i).timeout (pos crt_time))) [
      | inl late ↦
          rw
            (search_chain-round s address hash crt_time rounds i count (remove s i, false)
              (is_active-late s i crt_time used late))
            (search_chain-Indexed (remove s i) address hash crt_time rounds (s.users.next i) count
              (update chains (hash_at s i) (erase i (chains (hash_at s i))))
              (remove-IsIndexed s i chains x used)
              (λ j e.
                taken-stays chains (hash_at s i) i j hash
                  (next-apart s.users.next i j (chains hash) (s.users.entries hash)
                    (x.table.seg hash) (x.table.distinct hash) (m i refl) e)
                  (behind j e)))
      | inr early ↦
          rw
            (search_chain-round s address hash crt_time rounds i count (s, true)
              (is_active-early s i crt_time used early))
            (elim (Bool-cases (same_family address (server_at s i).address && same.0)) [
              | inl found ↦
                  rw (found)
                    (moved chains hash i, move_on_top-IsIndexed s chains hash i x (m i refl))
              | inr other ↦ rw (other) (
                  search_chain-Indexed s address hash crt_time rounds (s.users.next i) _ chains x
                    behind)
            ])
    ]
  where
    used : is_unused_at s.servers i ≡ false
    used = (x.within hash i (m i refl)).0

    same : Bool × Bool
    same = is_same_address (server_at s i).address address

    behind : (j : ℕ) → s.users.next i ≡ some j → mem j (chains hash) ≡ true
    behind j e =
        mem-next s.users.next i j (chains hash) (s.users.entries hash) (x.table.seg hash) (m i refl)
          e

pub is_active-Indexed :
    (s : Servers) (i crt_time : ℕ) → Indexed s → Indexed (is_active s i crt_time).0
unfolding is_active
is_active-Indexed s i crt_time (chains, x) = elim (Bool-cases (is_unused_at s.servers i)) [
  | inl unused ↦ rw (unused, is_active) (chains, x)
  | inr used ↦ elim (Bool-cases (ltb_ℤ (server_at s i).timeout (pos crt_time))) [
    | inl late ↦
        rw (used, late, is_active)
          (
            update chains (hash_at s i) (erase i (chains (hash_at s i))),
            remove-IsIndexed s i chains x used,
          )
    | inr early ↦ rw (used, early, is_active) (chains, x)
  ]
]
