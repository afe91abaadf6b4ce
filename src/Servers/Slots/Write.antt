-- ===== src/Servers/Slots/Write.antt =====
-- src/servers.c: a handler's writes to a server that it found, and the well-formedness of the list.
use dpmaster_x.Prelude.{
  ℕ, zero, suc, ◌+◌, ◌≡◌, refl, sym, ap, ◌∙◌, true, false, ◌&&◌, none, some, List, [], ◌∷◌, arith,
  set, if◌then◌else◌, Index, Bool-cases, Option-cases, inl, inr, subst, length-set,
}
use dpmaster_x.Address.{Address, address_hash, same_family, is_same_address}
use dpmaster_x.Servers.{Server, Servers, server_at, is_active, is_unused}
use dpmaster_x.Servers.Lookup.{Found, move_on_top, search_chain, get_by_addr_internal, get_by_addr}
use dpmaster_x.Servers.Slots.{IsWellFormed, count_used, is_unused_at}

count_used-same :
    (servers : List Server) (i : ℕ) (sv : Server)
    → is_unused sv.state ≡ is_unused_at servers i
    → count_used (set servers i sv) ≡ count_used servers
unfolding count_used
count_used-same [] i sv h = refl
count_used-same (x ∷ svs) zero sv h = ground (arith, h)
count_used-same (x ∷ svs) (suc i) sv h = ground (arith, count_used-same svs i sv h)

pub is_unused_at-same :
    (servers : List Server) (i j : ℕ) (sv : Server)
    → is_unused sv.state ≡ is_unused_at servers i
    → is_unused_at (set servers i sv) j ≡ is_unused_at servers j
is_unused_at-same [] i j sv h = refl
is_unused_at-same (x ∷ svs) zero zero sv h = h
is_unused_at-same (x ∷ svs) zero (suc j) sv h = refl
is_unused_at-same (x ∷ svs) (suc i) zero sv h = refl
is_unused_at-same (x ∷ svs) (suc i) (suc j) sv h = is_unused_at-same svs i j sv h

-- A write that leaves a slot used, or unused.
pub set-IsWellFormed :
    (s : Servers) (i : ℕ) (sv : Server)
    → IsWellFormed s
    → is_unused sv.state ≡ is_unused_at s.servers i
    → IsWellFormed (record s { servers = set s.servers i sv })
set-IsWellFormed s i sv w h = record {
  size = length-set s.servers i sv ∙ w.size;
  small = w.small;
  counted = count_used-same s.servers i sv h ∙ w.counted;
  last = λ j u. w.last j (sym (same j) ∙ u);
  last_used = λ l e. same l ∙ w.last_used l e;
  last_inside = w.last_inside;
  free = λ f e. ((w.free f e).0, same f ∙ (w.free f e).1);
  free_least = λ j l u. w.free_least j l (sym (same j) ∙ u);
}
  where
    same : (j : ℕ) → is_unused_at (set s.servers i sv) j ≡ is_unused_at s.servers j
    same j = is_unused_at-same s.servers i j sv h

-- Sv_IsActive says of a server that it is in use only if it is.
is_active_used :
    (s : Servers) (i crt_time : ℕ)
    → (is_active s i crt_time).1 ≡ true
    → is_unused_at (is_active s i crt_time).0.servers i ≡ false
unfolding is_active
is_active_used s i crt_time h = ground (arith, h)

-- The server that the search finds is in use.
abbrev pub IsUsedIn : Found → Type 0
IsUsedIn f = (i : ℕ) → f.server ≡ some i → is_unused_at f.after.servers i ≡ false

pub search_chain-IsUsedIn :
    (s : Servers) (address : Address) (hash crt_time rounds : ℕ) (first : Index) (count : ℕ)
    → IsUsedIn (search_chain s address hash crt_time rounds first count)
unfolding search_chain move_on_top
search_chain-IsUsedIn s address hash crt_time rounds none count = λ i e. cc
search_chain-IsUsedIn s address hash crt_time zero (some j) count = λ i e. cc
search_chain-IsUsedIn s address hash crt_time (suc rounds) (some j) count =
    let active = is_active s j crt_time in
    let comparable = active.1 && same_family address (server_at s j).address in
    let same = is_same_address (server_at s j).address address in
    elim (Bool-cases (comparable && same.0)) [
      | inl found ↦
          rw (found, search_chain)
            (λ i e.
              subst (λ k. is_unused_at active.0.servers k ≡ false) (ground (arith, e))
                (is_active_used s j crt_time (ground (arith, found))))
      | inr other ↦
          rw (other, search_chain)
            (search_chain-IsUsedIn active.0 address hash crt_time rounds (s.users.next j)
              (if comparable && same.1 then count + 1 else count))
    ]

pub get_by_addr-used :
    (s : Servers) (address : Address) (crt_time i : ℕ)
    → (get_by_addr s address false crt_time).1 ≡ some i
    → is_unused_at (get_by_addr s address false crt_time).0.servers i ≡ false
unfolding get_by_addr get_by_addr_internal
get_by_addr-used s address crt_time i h = elim (Option-cases found.server) [
  | inl e ↦
      let missing : get_by_addr s address false crt_time ≡ (found.after, none) =
        rw (e, get_by_addr) refl in
      absurd (cc (sym (ap (λ r. r.1) missing) ∙ h))
  | inr (j, e) ↦
      let hit : get_by_addr s address false crt_time ≡ (found.after, some j) =
        rw (e, get_by_addr) refl in
      rw (hit) (
        search_chain-IsUsedIn s address hash crt_time s.max_nb_servers (s.users.entries hash) 0 i
          (e ∙ sym (ap (λ r. r.1) hit) ∙ h))
]
  where
    found : Found
    found = get_by_addr_internal s address crt_time

    hash : ℕ
    hash = address_hash s.hash_ports address s.sv_hash_size
